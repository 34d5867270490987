-- ===== src/Throttler/Script/Tests.antt =====
-- A run of REDIS_THROTTLER_SCRIPT (src/config/redis-throttler.storage.ts) on a table in memory.
use stellar_tip_api.Common.{
  ℕ, suc, ◌+◌, String, ◌==◌, ◌≡◌, refl, ap, Option, none, some, [], ◌∷◌, if◌then◌else◌, arith,
}
use stellar_tip_api.Throttler.Script.{
  Stored, live, ttl_of, value_of, deadline_of, Redis, generate_key, passes,
}
use stellar_tip_api.Throttler.Script.Window.{window_lets_limit_through}

abbrev Table : Type 0
Table = String → Option Stored

abbrev put : String → Stored → Table → Table
put key e s j = if key == j then some e else s j

abbrev counted_up : Option Stored → Stored
counted_up e = record { value = suc (value_of e); deadline = deadline_of e }

abbrev expiring : ℕ → Option Stored → Table → String → Table
expiring at none s key = s
expiring at (some e) s key = put key (record e { deadline = some at }) s

abbrev table : Redis
table = record {
  State = Table;
  stored = λ s key. s key;
  pttl = λ now key s. ttl_of now (live now (s key));
  get = λ now key s. value_of (live now (s key));
  incr =
      λ now key s. (suc (value_of (live now (s key))), put key (counted_up (live now (s key))) s);
  pexpire = λ now key ttl s. expiring (now + ttl) (live now (s key)) s key;
  set_px = λ now key value ttl s. put key (record { value = value; deadline = some (now + ttl) }) s;
  pttl_lem = λ now key s. refl;
  get_lem = λ now key s. refl;
  incr_value = λ now key s. refl;
  incr_stored = λ now key j s. refl;
  pexpire_stored = λ now key j ttl s e h. ap (λ o. expiring (now + ttl) o s key j) h;
  set_px_stored = λ now key j value ttl s. refl;
}

abbrev empty : Table
empty key = none

tips_key : String
unfolding generate_key
tips_key = generate_key "10.0.0.1" "POST" "/tips"

-- Three requests within a minute, of which two are allowed.
window_lets_limit_through_example :
    passes table tips_key 60000 2 60000 (5000 ∷ 9000 ∷ 64999 ∷ []) empty ≡ 2
window_lets_limit_through_example =
    window_lets_limit_through table tips_key 60000 2 60000 5000 (5000 ∷ 9000 ∷ 64999 ∷ []) empty
      refl refl
      ((omega arith, omega arith), ((omega arith, omega arith), ((omega arith, omega arith), tt)))
