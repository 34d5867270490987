-- ===== src/Shared/Sanitizer/Bounds.antt =====
-- What a text is after sanitizeText of src/shared/sanitization/text-sanitizer.ts.
use stellar_tip_api.Common.{
  ℕ, zero, suc, ◌≤◌, false, ◌&&◌, String, ◌≡◌, ◌≢◌, ◌⊎◌, eqb, eqb_iff, inl, inr, [], ◌∷◌, arith,
  is_space, Bool-cases,
}
use stellar_tip_api.Common.Lists.{length, length-take, take, All, All-map}
use stellar_tip_api.Shared.Sanitizer.{
  Units, limit_of_field, is_control, remove_controls, is_nil, trim_units_start, trim_units_end,
  sanitize_text,
}

-- Neither white space nor a line end is at the front.
abbrev pub StartsSet : Units → Type 0
StartsSet [] = Unit
StartsSet (c ∷ cs) = is_space c ≡ false

abbrev pub IsPlain : Units → Type 0
IsPlain = All (λ c. is_control c ≡ false)

remove_controls-IsPlain : (cs : Units) → IsPlain (remove_controls cs)
unfolding remove_controls
remove_controls-IsPlain [] = tt
remove_controls-IsPlain (c ∷ cs) =
    let rest = remove_controls-IsPlain cs in
    elim (Bool-cases (is_control c)) [ inl t ↦ rw t rest | inr f ↦ rw f (f, rest) ]

start-IsPlain : (cs : Units) → IsPlain cs → IsPlain (trim_units_start cs)
unfolding trim_units_start
start-IsPlain [] h = tt
start-IsPlain (c ∷ cs) h = elim (Bool-cases (is_space c)) [
  | inl t ↦ rw t (start-IsPlain cs h.1)
  | inr f ↦ rw f h
]

start-StartsSet : (cs : Units) → StartsSet (trim_units_start cs)
unfolding trim_units_start
start-StartsSet [] = tt
start-StartsSet (c ∷ cs) = elim (Bool-cases (is_space c)) [
  | inl t ↦ rw t (start-StartsSet cs)
  | inr f ↦ rw f f
]

end-IsPlain : (cs : Units) → IsPlain cs → IsPlain (trim_units_end cs)
unfolding trim_units_end
end-IsPlain [] h = tt
end-IsPlain (c ∷ cs) h =
    let rest = end-IsPlain cs h.1 in
    elim (Bool-cases (is_space c && is_nil (trim_units_end cs))) [
      | inl t ↦ rw t tt
      | inr f ↦ rw f (h.0, rest)
    ]

end-StartsSet : (cs : Units) → StartsSet cs → StartsSet (trim_units_end cs)
unfolding trim_units_end
end-StartsSet [] h = tt
end-StartsSet (c ∷ cs) h = rw h h

take-IsPlain : (n : ℕ) (cs : Units) → IsPlain cs → IsPlain (take n cs)
take-IsPlain zero cs h = tt
take-IsPlain (suc n) [] h = tt
take-IsPlain (suc n) (c ∷ cs) h = (h.0, take-IsPlain n cs h.1)

take-StartsSet : (n : ℕ) (cs : Units) → StartsSet cs → StartsSet (take n cs)
take-StartsSet zero cs h = tt
take-StartsSet (suc n) [] h = tt
take-StartsSet (suc n) (c ∷ cs) h = h

-- No control character of the first 32 but tabulator, line feed and carriage return, and not the
-- 127th.
pub IsShown : ℕ → Type 0
IsShown c = (c ≡ 9) ⊎ ((c ≡ 10) ⊎ ((c ≡ 13) ⊎ ((32 ≤ c) × (c ≢ 127))))

uncontrolled-IsShown : (c : ℕ) → is_control c ≡ false → IsShown c
unfolding is_control IsShown
uncontrolled-IsShown c h = elim (Bool-cases (eqb c 9)) [
  | inl t ↦ inl ((eqb_iff c 9).0 t)
  | inr f ↦ inr (elim (Bool-cases (eqb c 10)) [
    | inl t ↦ inl ((eqb_iff c 10).0 t)
    | inr g ↦ inr (elim (Bool-cases (eqb c 13)) [
      | inl t ↦ inl ((eqb_iff c 13).0 t)
      | inr k ↦ inr (ground (arith, h, f, g, k), λ e. ground (arith, h, e))
    ])
  ])
]

-- The units that a field may have.
pub IsWithin : String → ℕ → Type 0
IsWithin field n =
    (field ≡ "bio" → n ≤ 500)
    × (field ≡ "displayName" → n ≤ 60)
    × (field ≡ "message" → n ≤ 280)
    × (n ≤ 1000)

limit-IsWithin : (field : String) (n : ℕ) → n ≤ limit_of_field field → IsWithin field n
unfolding limit_of_field IsWithin
limit-IsWithin field n h = (λ e. rw e at h, λ e. rw e at h, λ e. rw e at h, ground (arith, h))

-- Whatever the HTML of an input is made to and however it is normalized, what is stored has at most
-- 500 UTF-16 units for bio, 60 for displayName, 280 for message and 1000 for any field, no control
-- character of the first 32 but tabulators and line ends and no DEL, and no white space in front.
pub sanitized_text-IsPlain :
    (sanitize_html normalize : Units → Units) (input : Units) (field : String)
    → let text = sanitize_text sanitize_html normalize input field in
      IsWithin field (length text) × All IsShown text × StartsSet text
unfolding sanitize_text
sanitized_text-IsPlain sanitize_html normalize [] field =
    (limit-IsWithin field 0 (omega arith), tt, tt)
sanitized_text-IsPlain sanitize_html normalize (c ∷ cs) field =
    let plain = remove_controls (normalize (sanitize_html (c ∷ cs))) in
    let limit = limit_of_field field in
    let text = trim_units_end (trim_units_start plain) in
    (
      limit-IsWithin field (length (take limit text)) (length-take limit text),
      All-map _ IsShown (take limit text) uncontrolled-IsShown (
          take-IsPlain limit text (
            end-IsPlain (trim_units_start plain) (
              start-IsPlain plain (remove_controls-IsPlain (normalize (sanitize_html (c ∷ cs))))))),
      take-StartsSet limit text (end-StartsSet (trim_units_start plain) (start-StartsSet plain)),
    )
