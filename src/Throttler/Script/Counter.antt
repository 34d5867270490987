-- ===== src/Throttler/Script/Counter.antt =====
-- What the commands of REDIS_THROTTLER_SCRIPT (src/config/redis-throttler.storage.ts) do to the
-- counter of a key.
use text.Mathlib.TextLemmas.{append_cancel_left}
use stellar_tip_api.Common.{
  ℕ, suc, ◌+◌, ◌≤◌, ◌<◌, true, false, Bool-cases, Option-cases, String, ◌==◌, eq_iff, eq_refl, ◌≡◌,
  refl, sym, ap, ◌∙◌, inl, inr, Option, none, some, if◌then◌else◌, ltb, arith,
}
use stellar_tip_api.Throttler.Script.{Stored, live, Redis, hits_key, block_key}

other_key : (key : String) → ¬ (block_key key ≡ hits_key key)
other_key key h =
    absurd (ground (arith, append_cancel_left key ":blocked" ":hits" h, eq_iff ":blocked" ":hits"))

pub keys_differ : (key : String) → (block_key key == hits_key key) ≡ false
keys_differ key = elim (Bool-cases (block_key key == hits_key key)) [
  | inl h ↦ absurd (other_key key ((eq_iff (block_key key) (hits_key key)).0 h))
  | inr h ↦ h
]

pub differ_keys : (key : String) → (hits_key key == block_key key) ≡ false
differ_keys key = elim (Bool-cases (hits_key key == block_key key)) [
  | inl h ↦ absurd (other_key key (sym ((eq_iff (hits_key key) (block_key key)).0 h)))
  | inr h ↦ h
]

-- the counter of a window that ends at a deadline
abbrev pub counted : ℕ → ℕ → Stored
counted v d = record { value = v; deadline = some d }

pub over_limit : (limit v : ℕ) → limit < v → ltb limit v ≡ true
over_limit limit v h = ground arith

-- What has expired stays so.
pub live_later : (t now : ℕ) (e : Option Stored) → live t e ≡ none → t ≤ now → live now e ≡ none
live_later t now none free late = refl
live_later t now (some e) free late = elim (Option-cases e.deadline) [
  | inl never ↦ ground (arith, never, free)
  | inr (d, at_d) ↦ ground (arith, at_d, free)
]

live-counted : (now v d : ℕ) → now < d → live now (some (counted v d)) ≡ some (counted v d)
live-counted now v d h = ground arith

abbrev started_counter : Stored
started_counter = record { value = 1; deadline = none }

module _ (r : Redis) (key : String) where
  pub incr_counted :
      (now v d : ℕ) (s : r.State)
      → r.stored s (hits_key key) ≡ some (counted v d)
      → now < d
      → ((r.incr now (hits_key key) s).0 ≡ suc v)
        × (r.stored (r.incr now (hits_key key) s).1 (hits_key key) ≡ some (counted (suc v) d))
  incr_counted now v d s h before =
      rw
        (
          r.incr_value now (hits_key key) s,
          r.incr_stored now (hits_key key) (hits_key key) s,
          eq_refl (hits_key key),
          h,
          live-counted now v d before,
        )
        (refl, refl)

  -- The first request starts the counter, which expires after the window.
  pub incr_first :
      (now ttl : ℕ) (s : r.State)
      → live now (r.stored s (hits_key key)) ≡ none
      → let counter = r.incr now (hits_key key) s in
        (counter.0 ≡ 1)
        × ((j : String)
            → r.stored (r.pexpire now (hits_key key) ttl counter.1) j
              ≡ (if hits_key key == j then some (counted 1 (now + ttl)) else r.stored s j))
  incr_first now ttl s free = (
    r.incr_value now (hits_key key) s ∙ rw free refl,
    λ j.
        r.pexpire_stored now (hits_key key) j ttl (r.incr now (hits_key key) s).1 started_counter (
          ap (live now) (r.incr_stored now (hits_key key) (hits_key key) s)
          ∙ rw (eq_refl (hits_key key), free) refl)
        ∙ elim (Bool-cases (hits_key key == j)) [
          | inl same ↦ rw same refl
          | inr other ↦ rw (other, r.incr_stored now (hits_key key) j s, other) refl
        ],
  )

  -- Setting the block leaves the counter.
  pub set_px-counter :
      (now ttl : ℕ) (s : r.State)
      → r.stored (r.set_px now (block_key key) 1 ttl s) (hits_key key) ≡ r.stored s (hits_key key)
  set_px-counter now ttl s =
      rw (r.set_px_stored now (block_key key) (hits_key key) 1 ttl s, keys_differ key) refl
