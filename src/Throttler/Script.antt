-- ===== src/Throttler/Script.antt =====
-- REDIS_THROTTLER_SCRIPT of src/config/redis-throttler.storage.ts, which Redis runs for `increment`,
-- and the key of src/app.module.ts that it counts under. The server is a parameter: what it stores
-- under a key, and its commands with what they are documented to do. Times are in milliseconds.
pub mod Counter
pub mod Window
mod Tests
use Prim.Native.String
use stellar_tip_api.Common.{
  ℕ, zero, suc, ◌+◌, ◌-◌, Bool, true, false, String, ◌==◌, ◌≡◌, Option, none, some, List, [], ◌∷◌,
  if◌then◌else◌, ltb, leb, eqb,
}
use stellar_tip_api.Common.Num.{ℤ, pos, negsuc, ltb_ℤ}

-- What is stored under a key: a number, and when it expires.
pub record Stored : Type 0 where
  pub value : ℕ
  pub deadline : Option ℕ

-- what is left of it at a time
abbrev pub live : ℕ → Option Stored → Option Stored
live now none = none
live now (some e) = elim (e.deadline) [
  | none ↦ some e
  | some d ↦ if leb d now then none else some e
]

-- `PTTL`: -2 for no key, -1 for a key that does not expire
abbrev pub ttl_of : ℕ → Option Stored → ℤ
ttl_of now none = negsuc 1
ttl_of now (some e) = elim (e.deadline) [ none ↦ negsuc 0 | some d ↦ pos (d - now) ]

-- `GET key or '0'`
abbrev pub value_of : Option Stored → ℕ
value_of none = 0
value_of (some e) = e.value

abbrev pub deadline_of : Option Stored → Option ℕ
deadline_of none = none
deadline_of (some e) = e.deadline

pub record Redis : Type 1 where
  pub State : Type 0
  pub stored : State → String → Option Stored
  pub pttl : ℕ → String → State → ℤ
  pub get : ℕ → String → State → ℕ
  pub incr : ℕ → String → State → ℕ × State
  pub pexpire : ℕ → String → ℕ → State → State
  pub set_px : ℕ → String → ℕ → ℕ → State → State
  pub pttl_lem :
      (now : ℕ) (key : String) (s : State) → pttl now key s ≡ ttl_of now (live now (stored s key))
  pub get_lem :
      (now : ℕ) (key : String) (s : State) → get now key s ≡ value_of (live now (stored s key))
  -- a counter goes up by one and keeps its expiry
  pub incr_value :
      (now : ℕ) (key : String) (s : State)
      → (incr now key s).0 ≡ suc (value_of (live now (stored s key)))
  pub incr_stored :
      (now : ℕ) (key j : String) (s : State)
      → stored (incr now key s).1 j ≡ (
          if key == j
          then some (record {
            value = suc (value_of (live now (stored s key)));
            deadline = deadline_of (live now (stored s key));
          })
          else stored s j)
  -- the expiry of a key that is there
  pub pexpire_stored :
      (now : ℕ) (key j : String) (ttl : ℕ) (s : State) (e : Stored)
      → live now (stored s key) ≡ some e
      → stored (pexpire now key ttl s) j
        ≡ (if key == j then some (record e { deadline = some (now + ttl) }) else stored s j)
  pub set_px_stored :
      (now : ℕ) (key j : String) (value ttl : ℕ) (s : State)
      → stored (set_px now key value ttl s) j ≡ (
          if key == j
          then some (record { value = value; deadline = some (now + ttl) })
          else stored s j)

-- The four integers that the script returns.
pub record Reply : Type 0 where
  pub hits : ℕ
  pub hit_ttl : ℤ
  pub blocked : Bool
  pub block_ttl : ℤ

-- The name that a request is counted under: `rl:${tracker}:${method}:${url}`.
unfoldable pub generate_key : String → String → String → String
generate_key tracker method url =
    String.◌++◌ "rl:"
      (String.◌++◌ tracker (String.◌++◌ ":" (String.◌++◌ method (String.◌++◌ ":" url))))

abbrev pub hits_key : String → String
hits_key key = String.◌++◌ key ":hits"

abbrev pub block_key : String → String
block_key key = String.◌++◌ key ":blocked"

module _ (r : Redis) where
  -- `if hits == 1 then PEXPIRE`
  abbrev pub expire_first : ℕ → String → ℕ → ℕ × r.State → r.State
  expire_first now key ttl counted =
      if eqb counted.0 1 then r.pexpire now key ttl counted.1 else counted.1

  pub count_hit : ℕ → String → ℕ → ℕ → ℕ → r.State → Reply × r.State
  count_hit now key ttl limit block_duration s =
      let counted = r.incr now (hits_key key) s in
      let s1 = expire_first now (hits_key key) ttl counted in
      let hit_ttl = r.pttl now (hits_key key) s1 in
      if ltb limit counted.0
      then (
        record {
          hits = counted.0;
          hit_ttl = hit_ttl;
          blocked = true;
          block_ttl = pos block_duration;
        },
        r.set_px now (block_key key) 1 block_duration s1,
      )
      else (record { hits = counted.0; hit_ttl = hit_ttl; blocked = false; block_ttl = pos 0 }, s1)

  -- the script, on KEYS `key:hits` and `key:blocked`
  pub script : ℕ → String → ℕ → ℕ → ℕ → r.State → Reply × r.State
  unfolding count_hit
  script now key ttl limit block_duration s =
      let block_ttl = r.pttl now (block_key key) s in
      if ltb_ℤ (pos 0) block_ttl
      then (
        record {
          hits = r.get now (hits_key key) s;
          hit_ttl = r.pttl now (hits_key key) s;
          blocked = true;
          block_ttl = block_ttl;
        },
        s,
      )
      else count_hit now key ttl limit block_duration s

  -- How many of the requests at these times are let through, one after the other.
  pub passes : String → ℕ → ℕ → ℕ → List ℕ → r.State → ℕ
  passes key ttl limit block_duration [] s = 0
  passes key ttl limit block_duration (now ∷ times) s =
      let (reply, s') = script now key ttl limit block_duration s in
      (if reply.blocked then 0 else 1) + passes key ttl limit block_duration times s'
