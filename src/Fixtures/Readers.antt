-- ===== src/Fixtures/Readers.antt =====
-- Reads of a table for the examples: its rows in its own order.
use stellar_tip_api.Common.{
  Bool, true, ◌≡◌, refl, ◌↔◌, inl, inr, none, some, List, [], ◌∷◌, Bool-cases, if◌then◌else◌,
}
use stellar_tip_api.Common.Num.{fin, pos}
use stellar_tip_api.Common.Lists.{length, take, drop}
use stellar_tip_api.Database.{Has}
use stellar_tip_api.Tips.Query.Read.{TipReader}

-- The rows that a test takes, in the table's order.
abbrev pub kept : {A : Type 0} → (A → Bool) → List A → List A
kept p [] = []
kept p (x ∷ xs) = if p x then x ∷ kept p xs else kept p xs

kept_sound :
    {A : Type 0} (p : A → Bool) (rows : List A) (a : A)
    → Has a (kept p rows)
    → Has a rows × (p a ≡ true)
kept_sound p [] a h = elim h [ ]
kept_sound p (x ∷ xs) a h = elim (Bool-cases (p x)) [
  | inl t ↦ elim (rw t at h) [
    | inl e ↦ (inl e, rw e t)
    | inr m ↦ let (n, s) = kept_sound p xs a m in (inr n, s)
  ]
  | inr f ↦ let (n, s) = kept_sound p xs a (rw f at h) in (inr n, s)
]

kept_complete :
    {A : Type 0} (p : A → Bool) (rows : List A) (a : A)
    → Has a rows
    → p a ≡ true
    → Has a (kept p rows)
kept_complete p [] a h t = elim h [ ]
kept_complete p (x ∷ xs) a (inl e) t = let taken : p x ≡ true = rw (← e) t in rw taken (inl e)
kept_complete p (x ∷ xs) a (inr m) t = elim (Bool-cases (p x)) [
  | inl taken ↦ rw taken (inr (kept_complete p xs a m t))
  | inr f ↦ rw f (kept_complete p xs a m t)
]

pub kept_iff :
    {A : Type 0} (p : A → Bool) (rows : List A) (a : A)
    → Has a (kept p rows) ↔ (Has a rows × (p a ≡ true))
kept_iff p rows a = (kept_sound p rows a, λ h. kept_complete p rows a h.0 h.1)

-- A table in its own order.
abbrev pub list_tip_reader : TipReader
list_tip_reader = record {
  ordered = λ column direction p rows. kept p rows;
  ordered_iff = λ column direction p rows tip. kept_iff p rows tip;
  find_and_count = λ p column direction skip limit rows. elim skip [
    | fin (pos n) ↦ elim limit [
      | fin (pos m) ↦ some (take m (drop n (kept p rows)), length (kept p rows))
      | _ ↦ none
    ]
    | _ ↦ none
  ];
  find_and_count_page = λ p column direction skip limit rows. refl;
}
