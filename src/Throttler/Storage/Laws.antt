-- ===== src/Throttler/Storage/Laws.antt =====
-- What the rate limiter is told, in src/config/redis-throttler.storage.ts.
use stellar_tip_api.Common.{
  ℕ, zero, suc, ◌+◌, ◌*◌, ◌/◌, ◌≤◌, ◌<◌, false, not, eqb, String, ◌≡◌, refl, inl, inr, List, [],
  ◌∷◌, arith, ap, ◌∙◌,
}
use stellar_tip_api.Common.Num.{Num, num, num_truthy}
use stellar_tip_api.Common.Value.{Value, at}
use stellar_tip_api.Throttler.Wire.{Wire}
use stellar_tip_api.Throttler.Resp.{Arg, server}
use stellar_tip_api.Throttler.Resp.Reply.{
  Reply, integer, items, none, more, value_of, write_line, NoReturn,
}
use stellar_tip_api.Throttler.Connection.{Settlement, resolved, rejected, by_parse, Rejection}
use stellar_tip_api.Throttler.Connection.Replies.{refusals, exchanges, idle, error_reply_stays}
use stellar_tip_api.Common.Lists.{All, Has}
use stellar_tip_api.Throttler.Storage.{milliseconds_to_seconds, answer, eval_args, increment}

-- Rounding up never shortens a wait, and lengthens it by less than a second.
pub milliseconds_to_seconds_bounds :
    (ms : ℕ)
    → (s : ℕ) × (milliseconds_to_seconds (num ms) ≡ num s)
      × (ms ≤ s * 1000)
      × (s * 1000 < ms + 1000)
unfolding milliseconds_to_seconds
milliseconds_to_seconds_bounds ms = ((ms + 999) / 1000, refl, omega arith, omega arith)

num_truthy-num : (n : ℕ) → num_truthy (num n) ≡ not (eqb n 0)
num_truthy-num zero = refl
num_truthy-num (suc n) = ground arith

-- The script's reply: hits, their time to live, the block flag, its time to live.
abbrev pub script_reply : ℕ → ℕ → ℕ → ℕ → Reply
script_reply hits hit_ttl blocked block_ttl = items (
    more (integer hits)
      (more (integer hit_ttl) (more (integer blocked) (more (integer block_ttl) none))))

module _ (script : String) (number_of : Value → Num) (character : String → ℕ → Value) where
  -- A reply of four integers is told as it is: the hits, whether the flag is set, and the two times
  -- in seconds, each at least what the reply says and less than a second more.
  pub increment_reads_reply :
      (command : List Arg → Settlement) (key : String) (ttl limit block_duration : Num)
      (hits hit_ttl blocked block_ttl : ℕ)
      → ((n : Num) → number_of (Value.number n) ≡ n)
      → command (eval_args script key ttl limit block_duration)
        ≡ resolved (value_of (script_reply hits hit_ttl blocked block_ttl))
      → let r = increment script number_of character command key ttl limit block_duration in
        (r.total_hits ≡ Value.number (num hits))
        × (r.is_blocked ≡ not (eqb blocked 0))
        × ((s : ℕ) × (r.time_to_expire ≡ num s)
            × (hit_ttl ≤ s * 1000)
            × (s * 1000 < hit_ttl + 1000))
        × ((s : ℕ) × (r.time_to_block_expire ≡ num s)
            × (block_ttl ≤ s * 1000)
            × (s * 1000 < block_ttl + 1000))
  unfolding increment value_of at
  increment_reads_reply command key ttl limit block_duration hits hit_ttl blocked block_ttl law
        replies =
      let (s, to_s, above, below) = milliseconds_to_seconds_bounds hit_ttl in
      let (b, to_b, above', below') = milliseconds_to_seconds_bounds block_ttl in
      rw replies (
        refl,
        num_truthy-num blocked,
        (s, ap milliseconds_to_seconds (law (num hit_ttl)) ∙ to_s, above, below),
        (b, ap milliseconds_to_seconds (law (num block_ttl)) ∙ to_b, above', below'),
      )

  -- Where Redis cannot be asked, the request is let through, with no hits counted.
  pub increment_unavailable :
      (command : List Arg → Settlement) (key : String) (ttl limit block_duration : Num)
      (e : Rejection)
      → command (eval_args script key ttl limit block_duration) ≡ rejected e
      → let r = increment script number_of character command key ttl limit block_duration in
        (r.total_hits ≡ Value.number (num 0)) × (r.is_blocked ≡ false)
  unfolding increment
  increment_unavailable command key ttl limit block_duration e down = rw down (refl, refl)

  -- Every request that is answered with one of these is let through.
  abbrev pub AllAllowed : Num → List (ℕ × Settlement) → Type 0
  AllAllowed ttl settled =
      All (λ x. (answer script number_of character ttl x.1).is_blocked ≡ false) settled

  refusals-AllAllowed :
      (wire : Wire) (message : String) (xs : List (ℕ × List ℕ)) (settled : List (ℕ × Settlement))
      (ttl : Num)
      → AllAllowed ttl settled
      → AllAllowed ttl (refusals wire message xs settled)
  unfolding answer
  refusals-AllAllowed wire message [] settled ttl h = h
  refusals-AllAllowed wire message (x ∷ xs) settled ttl h =
      refusals-AllAllowed wire message xs _ ttl (refl, h)

  -- Every one of these commands was answered, so that its request is let through.
  abbrev pub EachAllowed : Num → List (ℕ × List ℕ) → List (ℕ × Settlement) → Type 0
  EachAllowed ttl xs settled =
      (x : ℕ × List ℕ)
      → Has x xs
      → (s : Settlement) × Has (x.0, s) settled
        × ((answer script number_of character ttl s).is_blocked ≡ false)

  -- What was settled stays, and each later command is refused.
  refusals-settled :
      (wire : Wire) (message : String) (xs : List (ℕ × List ℕ)) (settled : List (ℕ × Settlement))
      (y : ℕ × Settlement)
      → Has y settled
      → Has y (refusals wire message xs settled)
  refusals-settled wire message [] settled y m = m
  refusals-settled wire message (x ∷ xs) settled y m = refusals-settled wire message xs _ y (inr m)

  refusals-each :
      (wire : Wire) (message : String) (xs : List (ℕ × List ℕ)) (settled : List (ℕ × Settlement))
      (ttl : Num)
      → EachAllowed ttl xs (refusals wire message xs settled)
  unfolding answer
  refusals-each wire message [] settled ttl x m = elim m [ ]
  refusals-each wire message ((id, chunk) ∷ xs) settled ttl x (inl e) = (
    rejected (by_parse (server message)),
    refusals-settled wire message xs _ _
        (inl (ap (λ x. (x.0, rejected (by_parse (server message)))) e)),
    refl,
  )
  refusals-each wire message (y ∷ xs) settled ttl x (inr m) =
      refusals-each wire message xs _ ttl x m

  -- Once the server has replied with an error to one command, that command and every one that is
  -- issued and gets a chunk after it is settled, and every request is let through, whatever the
  -- server replies; one command waits at a time.
  pub error_reply_disables_limit :
      (wire : Wire) (message : String) (id : ℕ) (xs : List (ℕ × List ℕ)) (ttl : Num)
      → NoReturn (wire.encode message)
      → let commands = (id, write_line b'-' (wire.encode message) []) ∷ xs in
        let settled = (exchanges wire commands (idle wire [] [])).settled in
        EachAllowed ttl commands settled × AllAllowed ttl settled
  unfolding answer
  error_reply_disables_limit wire message id xs ttl p =
      rw (error_reply_stays wire message id xs [] p) (
        refusals-each wire message ((id, write_line b'-' (wire.encode message) []) ∷ xs) [] ttl,
        refusals-AllAllowed wire message xs _ ttl (refl, tt),
      )
