-- ===== src/Throttler/Script/Window.antt =====
-- REDIS_THROTTLER_SCRIPT of src/config/redis-throttler.storage.ts: what it lets through within one
-- window.
use stellar_tip_api.Common.{
  ℕ, suc, ◌+◌, ◌-◌, ◌≤◌, ◌<◌, true, false, Bool-cases, String, eq_refl, ◌≡◌, refl, ◌∙◌, ◌⊎◌, inl,
  inr, none, some, List, [], ◌∷◌, if◌then◌else◌, ltb, leb, arith, ltb→lt,
}
use stellar_tip_api.Common.Num.{pos, ltb_ℤ}
use stellar_tip_api.Common.Lists.{All, All-map, length}
use stellar_tip_api.Throttler.Script.{
  live, Redis, Reply, hits_key, block_key, count_hit, script, passes,
}
use stellar_tip_api.Throttler.Script.Counter.{
  differ_keys, counted, over_limit, live_later, incr_counted, incr_first, set_px-counter,
}

module _ (r : Redis) (key : String) where
  module _ (ttl limit block_duration : ℕ) where
    run : ℕ → r.State → Reply × r.State
    run now s = script r now key ttl limit block_duration s

    counted_again :
        (now v d : ℕ) (s : r.State)
        → r.stored s (hits_key key) ≡ some (counted (suc v) d)
        → now < d
        → let (reply, s') = count_hit r now key ttl limit block_duration s in
          (reply.blocked ≡ ltb limit (suc (suc v)))
          × (r.stored s' (hits_key key) ≡ some (counted (suc (suc v)) d))
    unfolding count_hit
    counted_again now v d s h before =
        let (value, stored) = incr_counted r key now (suc v) d s h before in
        ground (
          arith,
          value,
          stored,
          set_px-counter r key now block_duration (r.incr now (hits_key key) s).1,
        )

    -- A request that is not blocked leaves no block.
    counted_unblocked :
        (now v d : ℕ) (s : r.State)
        → r.stored s (hits_key key) ≡ some (counted (suc v) d)
        → now < d
        → ltb limit (suc (suc v)) ≡ false
        → r.stored (count_hit r now key ttl limit block_duration s).1 (block_key key)
          ≡ r.stored s (block_key key)
    unfolding count_hit
    counted_unblocked now v d s h before within =
        let (value, _) = incr_counted r key now (suc v) d s h before in
        let kept = r.incr_stored now (hits_key key) (block_key key) s in
        ground (arith, value, within, kept, differ_keys key)

    free_counts :
        (now : ℕ) (s : r.State)
        → live now (r.stored s (block_key key)) ≡ none
        → run now s ≡ count_hit r now key ttl limit block_duration s
    unfolding run script
    free_counts now s free = rw (r.pttl_lem now (block_key key) s, free) refl

    blocked-or-counted :
        (now : ℕ) (s : r.State)
        → ((run now s).0.blocked ≡ true) × ((run now s).1 ≡ s)
          ⊎ (run now s ≡ count_hit r now key ttl limit block_duration s)
    unfolding run script
    blocked-or-counted now s = elim (Bool-cases (ltb_ℤ (pos 0) (r.pttl now (block_key key) s))) [
      | inl e ↦ inl (rw e (refl, refl))
      | inr e ↦ inr (rw e refl)
    ]

    let_through : List ℕ → r.State → ℕ
    let_through times s = passes r key ttl limit block_duration times s

    -- Once the counter has reached the limit nothing is let through.
    none_over_limit :
        (times : List ℕ) (v d : ℕ) (s : r.State)
        → r.stored s (hits_key key) ≡ some (counted (suc v) d)
        → limit ≤ suc v
        → All (λ now. now < d) times
        → let_through times s ≡ 0
    unfolding let_through passes run
    none_over_limit [] v d s h over before = refl
    none_over_limit (now ∷ times) v d s h over (now_before, before) =
        elim (blocked-or-counted now s) [
          | inl (blocked, same) ↦
              rw (blocked, same) (omega (arith, none_over_limit times v d s h over before))
          | inr counts ↦
              let (blocked, stored) = counted_again now v d s h now_before in
              let is_blocked = blocked ∙ over_limit limit (suc (suc v)) (omega arith) in
              let rest =
                none_over_limit times (suc v) d (count_hit r now key ttl limit block_duration s).1
                  stored (omega arith) before in
              rw (counts, is_blocked) (omega (arith, rest))
        ]

    -- what is left of the limit, and no more than asked for
    left : ℕ → List ℕ → ℕ
    left v times = if leb (length times) (limit - v) then length times else limit - v

    let_through-counting :
        (times : List ℕ) (v d t : ℕ) (s : r.State)
        → r.stored s (hits_key key) ≡ some (counted (suc v) d)
        → suc v ≤ limit
        → live t (r.stored s (block_key key)) ≡ none
        → All (λ now. (t ≤ now) × (now < d)) times
        → let_through times s ≡ left (suc v) times
    unfolding let_through passes run left
    let_through-counting [] v d t s h within free inside = ground arith
    let_through-counting (now ∷ times) v d t s h within free ((late, early), inside) =
        let (blocked, stored) = counted_again now v d s h early in
        let free_now = live_later t now (r.stored s (block_key key)) free late in
        rw (free_counts now s free_now, blocked)
          elim (Bool-cases (ltb limit (suc (suc v)))) [
            | inl over ↦
                let rest =
                  none_over_limit times (suc v) d (count_hit r now key ttl limit block_duration s).1
                    stored (omega (arith, ltb→lt limit (suc (suc v)) over))
                    (All-map (λ now. (t ≤ now) × (now < d)) (λ now. now < d) times (λ now at. at.1)
                      inside) in
                rw over (ground (arith, over, rest))
            | inr under ↦
                let rest =
                  let_through-counting times (suc v) d t
                    (count_hit r now key ttl limit block_duration s).1 stored
                    (ground (arith, under)) (rw (counted_unblocked now v d s h early under) free)
                    inside in
                rw under (ground (arith, under, rest))
          ]

    first_counted :
        (now : ℕ) (s : r.State)
        → live now (r.stored s (hits_key key)) ≡ none
        → let (reply, s') = count_hit r now key ttl limit block_duration s in
          (reply.blocked ≡ ltb limit 1)
          × (r.stored s' (hits_key key) ≡ some (counted 1 (now + ttl)))
    unfolding count_hit
    first_counted now s free =
        let (value, stored) = incr_first r key now ttl s free in
        let s1 = r.pexpire now (hits_key key) ttl (r.incr now (hits_key key) s).1 in
        ground (
          arith,
          value,
          stored (hits_key key),
          eq_refl (hits_key key),
          set_px-counter r key now block_duration s1,
        )

    first_unblocked :
        (now : ℕ) (s : r.State)
        → live now (r.stored s (hits_key key)) ≡ none
        → ltb limit 1 ≡ false
        → r.stored (count_hit r now key ttl limit block_duration s).1 (block_key key)
          ≡ r.stored s (block_key key)
    unfolding count_hit
    first_unblocked now s free within =
        let (value, stored) = incr_first r key now ttl s free in
        ground (arith, value, stored (block_key key), within, differ_keys key)

    -- From a window's start, when neither the counter nor the block is there, to its end exactly
    -- the limit is let through, or all if they are no more, whenever they come.
    pub window_lets_limit_through :
        (start : ℕ) (times : List ℕ) (s : r.State)
        → live start (r.stored s (hits_key key)) ≡ none
        → live start (r.stored s (block_key key)) ≡ none
        → All (λ now. (start ≤ now) × (now < start + ttl)) times
        → passes r key ttl limit block_duration times s
          ≡ (if leb (length times) limit then length times else limit)
    unfolding let_through passes run left
    window_lets_limit_through start [] s fresh free inside = ground arith
    window_lets_limit_through start (now ∷ times) s fresh free ((late, early), inside) =
        let fresh_now = live_later start now (r.stored s (hits_key key)) fresh late in
        let free_now = live_later start now (r.stored s (block_key key)) free late in
        let (blocked, stored) = first_counted now s fresh_now in
        let s' = (count_hit r now key ttl limit block_duration s).1 in
        rw (free_counts now s free_now, blocked)
          elim (Bool-cases (ltb limit 1)) [
            | inl over ↦
                let rest =
                  none_over_limit times 0 (now + ttl) s' stored (omega (arith, ltb→lt limit 1 over))
                    (All-map (λ at. (start ≤ at) × (at < start + ttl)) (λ at. at < now + ttl) times
                      (λ at bounds. omega (arith, bounds.1, late)) inside) in
                rw over (ground (arith, over, rest))
            | inr under ↦
                let rest =
                  let_through-counting times 0 (now + ttl) start s' stored (ground (arith, under))
                    (rw (first_unblocked now s fresh_now under) free)
                    (All-map (λ at. (start ≤ at) × (at < start + ttl))
                      (λ at. (start ≤ at) × (at < now + ttl)) times
                      (λ at bounds. (bounds.0, omega (arith, bounds, late))) inside) in
                rw under (ground (arith, under, rest))
          ]
