-- ===== src/Tips/Verify/Cached.antt =====
-- The cache of `verifyTipOnChain` of src/tips/tips.service.ts.
use stellar_tip_api.Common.{
  ℕ, ◌+◌, ◌<◌, false, String, ◌==◌, ◌≡◌, refl, sym, ap, ◌∙◌, none, List, ◌∷◌, arith, eq_refl, leb,
}
use stellar_tip_api.Http.{ok, bind-inv, lift-inv-state, require_some-inv}
use stellar_tip_api.Tips.Verify.Outcome.{ok-injective}
use stellar_tip_api.Tips.Verify.{
  Verifier, State, index_of, creator_address_of, verify_tip, notify_unless, compute, read_cache,
  answer_or, verify_tip_on_chain,
}
use stellar_tip_api.Tips.Verification.{
  Verification, Entry, cache_key, verification_cache_ttl_ms, lookup, without,
}

module _ (verifier : Verifier) where
  -- the entry that a verification leaves
  abbrev pub entry_of : ℕ → String → Verification → Entry
  entry_of written id v = record {
    key = cache_key id;
    expires_at = written + verification_cache_ttl_ms;
    payload = verifier.stringify v;
  }

  compute-cache :
      (written : ℕ) (id : String) (s s' : State) (v : Verification)
      → compute verifier written id s ≡ (ok v, s')
      → (rest : List Entry) × (s'.cache ≡ entry_of written id v ∷ rest)
  unfolding compute
  compute-cache written id s s' v h =
      let (tip, found, h1) =
        require_some-inv (verifier.orm.tips.find_one (λ t. t.id == id) s.db.tips) _ _ s h in
      let creator = verifier.orm.users.find_one (λ u. u.id == tip.columns.creator_id) s.db.users in
      let address = creator_address_of verifier creator tip in
      let (tip_index, at_index, h2) =
        require_some-inv (index_of tip.id (verifier.history tip.columns.creator_id s.db.tips)) _ _ s
          h1 in
      let (w, verified, h3) = lift-inv-state (verify_tip verifier tip tip_index address) _ s h2 in
      let (done, s1, told, h4) = bind-inv (notify_unless verifier w.matches tip address w) _ s h3 in
      let same : w ≡ v = ok-injective (ap (λ p. p.0) h4) in
      let cached : s'.cache ≡ entry_of written id w ∷ without (cache_key id) s1.cache =
        ap (λ p. p.1.cache) (sym h4) in
      (
        without (cache_key id) s1.cache,
        cached ∙ ap (λ x. entry_of written id x ∷ without (cache_key id) s1.cache) same,
      )

  -- A verification that was not cached is answered again for 60 seconds from when it was written,
  -- as its payload is read back; then nothing is asked of the chain, no notification is written
  -- and the state is as it was.
  pub answered_again :
      (now written later again : ℕ) (id : String) (s s' : State) (v : Verification)
      → lookup (cache_key id) s.cache ≡ none
      → verify_tip_on_chain verifier now written id s ≡ (ok v, s')
      → later < written + verification_cache_ttl_ms
      → verify_tip_on_chain verifier later again id s'
        ≡ (ok (verifier.parse (verifier.stringify v)), s')
  unfolding verify_tip_on_chain read_cache answer_or
  answered_again now written later again id s s' v absent h soon =
      let (rest, cache) = compute-cache written id s s' v (rw absent at h) in
      let expired : leb (written + verification_cache_ttl_ms) later ≡ false = ground arith in
      rw (cache, eq_refl (cache_key id), expired) refl
