-- ===== src/Fixtures.antt =====
-- Concrete third parties for the examples: a repository over a list, and a crypto module.
pub mod Readers
pub mod Sorted
use Prim.Native.String.{String}
use text.Mathlib.TextEquality.{codes_equal, eq_iff}
use stellar_tip_api.Common.{
  ℕ, zero, suc, ◌+◌, ◌≤◌, Bool, true, false, ◌&&◌, ◌≡◌, ◌≢◌, refl, ap, ◌↔◌, inl, inr, Option, none,
  some, List, [], ◌∷◌, arith, eqb, codes, if◌then◌else◌, ◌==◌, Bool-cases,
}
use stellar_tip_api.Common.Runtime.{Js, Crypto}
use stellar_tip_api.Common.Lists.{length, take, drop}
use stellar_tip_api.Common.Num.{num, nan, fin, pos}
use stellar_tip_api.Entities.{Entity, User, AuthMethod, UserRole}
use stellar_tip_api.Database.{Has, Repository, Orm, Database, replace, set_where}

pub none-some : {A : Type 0} (a : A) → none ≡ some a → ⊥
none-some a h = ground arith

abbrev pub text_length : String → ℕ
text_length String.[] = 0
text_length (String.◌∷◌ c s) = suc (text_length s)

module _ {C : Type 0} where
  abbrev first : (Entity C → Bool) → List (Entity C) → Option (Entity C)
  first p [] = none
  first p (e ∷ es) = if p e then some e else first p es

  abbrev ids_length : List (Entity C) → ℕ
  ids_length [] = 0
  ids_length (e ∷ es) = text_length e.id + ids_length es

  pub found_satisfies :
      (p : Entity C → Bool) (rows : List (Entity C)) (e : Entity C)
      → first p rows ≡ some e
      → Has e rows × (p e ≡ true)
  found_satisfies p [] e h = ground arith
  found_satisfies p (x ∷ xs) e h = elim (Bool-cases (p x)) [
    | inl t ↦ let same : x ≡ e = ground arith in (inl (ground arith), rw (← same) t)
    | inr f ↦ let (m, t) = found_satisfies p xs e (rw f at h) in (inr m, t)
  ]

  pub absent_refutes :
      (p : Entity C → Bool) (rows : List (Entity C)) (e : Entity C)
      → first p rows ≡ none
      → Has e rows
      → p e ≡ false
  absent_refutes p [] e h m = elim m [ ]
  absent_refutes p (x ∷ xs) e h m = elim (Bool-cases (p x)) [
    | inl t ↦ ground arith
    | inr f ↦ elim m [ inl same ↦ rw same f | inr m ↦ absent_refutes p xs e (rw f at h) m ]
  ]

  ids_length-le :
      (rows : List (Entity C)) (e : Entity C) → Has e rows → text_length e.id ≤ ids_length rows
  ids_length-le [] e m = elim m [ ]
  ids_length-le (x ∷ xs) e (inl same) = rw same (omega arith)
  ids_length-le (x ∷ xs) e (inr m) = omega (arith, ids_length-le xs e m)

abbrev pub exes : ℕ → String
exes zero = ""
exes (suc n) = String.◌∷◌ "x" (exes n)

text_length-exes : (n : ℕ) → text_length (exes n) ≡ n
text_length-exes zero = refl
text_length-exes (suc n) = ap suc (text_length-exes n)

module _ {C : Type 0} where
  -- A new row's id is longer than all there are.
  abbrev new_row : C → List (Entity C) → Entity C
  new_row c rows = record { id = exes (suc (ids_length rows)); created_at = 0; columns = c }

  pub new_row-fresh :
      (c : C) (rows : List (Entity C)) (x : Entity C) → Has x rows → x.id ≢ (new_row c rows).id
  new_row-fresh c rows x m same = absurd (
      omega
        (arith, ids_length-le rows x m, ap text_length same, text_length-exes (ids_length rows)))

  pub new_row-insert :
      (c : C) (rows : List (Entity C)) (e : Entity C) (rows' : List (Entity C))
      → ◌≡◌ {A = Option (Entity C × List (Entity C))}
          (some (new_row c rows, new_row c rows ∷ rows))
          (some (e, rows'))
      → (e.columns ≡ c) × (rows' ≡ e ∷ rows)
  new_row-insert c rows e rows' h = (ground arith, ground arith)

  pub new_row-insert_fresh :
      (c : C) (rows : List (Entity C)) (e : Entity C) (rows' : List (Entity C)) (x : Entity C)
      → ◌≡◌ {A = Option (Entity C × List (Entity C))}
          (some (new_row c rows, new_row c rows ∷ rows))
          (some (e, rows'))
      → Has x rows
      → x.id ≢ e.id
  new_row-insert_fresh c rows e rows' x h m =
      let same : new_row c rows ≡ e = ground arith in rw (← same) (new_row-fresh c rows x m)

  pub some-eq : (a b : List (Entity C)) → some a ≡ some b → b ≡ a
  some-eq a b h = ground arith

  -- A table that refuses nothing.
  abbrev pub list_repository : Repository C
  list_repository = record {
    find_one = first;
    find_one_some = found_satisfies;
    find_one_none = absent_refutes;
    insert = λ c rows. some (new_row c rows, new_row c rows ∷ rows);
    insert_some = new_row-insert;
    insert_fresh = new_row-insert_fresh;
    update = λ e rows. some (replace e rows);
    update_some = λ e rows rows' h. some-eq (replace e rows) rows' h;
    update_where = λ p f rows. some (set_where p f rows);
    update_where_some = λ p f rows rows' h. some-eq (set_where p f rows) rows' h;
  }

-- A table that refuses every new row.
abbrev pub full_repository : {C : Type 0} → Repository C
full_repository = record list_repository {
  insert = λ c rows. none;
  insert_some = λ c rows e rows' h. absurd (none-some _ h);
  insert_fresh = λ c rows e rows' x h m. absurd (none-some _ h);
}

abbrev pub list_orm : Orm
list_orm = record {
  users = list_repository;
  tips = list_repository;
  notifications = list_repository;
  refresh_tokens = list_repository;
}

abbrev pub empty_database : Database
empty_database = record { users = []; tips = []; notifications = []; refresh_tokens = [] }

-- A runtime that knows few texts.
abbrev pub small_js : Js
small_js = record {
  string_of_num = λ n. "5";
  string_of_bigint = λ n. "5";
  to_number = λ s. if s == "5" then num 5 else nan;
  number_of_bigint = λ n. fin n;
  parse_float = λ s. if s == "5" then num 5 else nan;
  parse_date = λ s. if s == "12:00" then some 1_000_000 else none;
  to_iso_string = λ t. "12:00:00.000Z";
}

abbrev pub wallet_user : String → String → User
wallet_user id wallet = record {
  id = id;
  created_at = 0;
  columns = record {
    username = "ann";
    display_name = none;
    bio = none;
    avatar_url = none;
    social_links = none;
    email = none;
    password = none;
    wallet_address = some wallet;
    auth_method = AuthMethod.stellar;
    role = UserRole.user;
    is_active = true;
  };
}

abbrev codes_eq : List ℕ → List ℕ → Bool
codes_eq [] [] = true
codes_eq (a ∷ as') (b ∷ bs) = eqb a b && codes_eq as' bs
codes_eq _ _ = false

pub codes_eq_iff : (a b : List ℕ) → (codes_eq a b ≡ true) ↔ (a ≡ b)
codes_eq_iff [] [] = ground arith
codes_eq_iff [] (b ∷ bs) = ground arith
codes_eq_iff (a ∷ as') [] = ground arith
codes_eq_iff (a ∷ as') (b ∷ bs) = ground (arith, codes_eq_iff as' bs)

pub codes-injective : (s t : String) → codes s ≡ codes t → s ≡ t
codes-injective String.[] String.[] h = refl
codes-injective String.[] (String.◌∷◌ d t) h = ground arith
codes-injective (String.◌∷◌ c s) String.[] h = ground arith
codes-injective (String.◌∷◌ c s) (String.◌∷◌ d t) h =
    let rest = codes-injective s t (ground arith) in
    let head = codes_equal c d (ground arith) in λ i. String.◌∷◌ (head i) (rest i)

pub mac-set : (secret : String) → (String.◌∷◌ "m" secret == "") ≡ false
mac-set secret = elim (Bool-cases (String.◌∷◌ "m" secret == "")) [
  | inl t ↦ absurd (omega (arith, ap text_length ((eq_iff (String.◌∷◌ "m" secret) "").0 t)))
  | inr f ↦ f
]

-- A signature that is not one: the secret behind a letter.
abbrev pub plain_crypto : Crypto
plain_crypto = record {
  hmac_sha256_hex = λ secret body. String.◌∷◌ "m" secret;
  hmac_sha256_hex_set = λ secret body. mac-set secret;
  utf8 = codes;
  utf8_injective = codes-injective;
  timing_safe_equal = codes_eq;
  timing_safe_equal_iff = codes_eq_iff;
}
