-- ===== src/Fixtures/Sorted.antt =====
-- A read of the rows with the greatest values of a column, for the examples.
use stellar_tip_api.Common.{
  ℕ, zero, suc, ◌≤◌, Bool, true, ◌≡◌, refl, ap, ◌⊎◌, inl, inr, List, [], ◌∷◌, Bool-cases,
  if◌then◌else◌, leb, leb→le, arith,
}
use stellar_tip_api.Common.Lists.{length, take, Has-take}
use stellar_tip_api.Entities.{Tip}
use stellar_tip_api.Database.{Has}
use stellar_tip_api.Fixtures.Readers.{kept, kept_iff}
use stellar_tip_api.Profiles.Tipping.{IsDescending}

module _ (column : Tip → ℕ) where
  unfoldable pub insert : Tip → List Tip → List Tip
  insert x [] = x ∷ []
  insert x (y ∷ ys) =
      let rest = insert x ys in if leb (column y) (column x) then x ∷ y ∷ ys else y ∷ rest

  unfoldable pub sorted : List Tip → List Tip
  unfolding insert
  sorted [] = []
  sorted (x ∷ xs) = insert x (sorted xs)

  Has-insert : (x y : Tip) (xs : List Tip) → Has y (insert x xs) → (y ≡ x) ⊎ Has y xs
  unfolding insert
  Has-insert x y [] (inl e) = inl e
  Has-insert x y [] (inr m) = elim m [ ]
  Has-insert x y (z ∷ zs) m = elim (Bool-cases (leb (column z) (column x))) [
    | inl t ↦ rw t at m
    | inr f ↦ elim (rw f at m) [
      | inl e ↦ inr (inl e)
      | inr n ↦ elim (Has-insert x y zs n) [ inl e ↦ inl e | inr k ↦ inr (inr k) ]
    ]
  ]

  insert-Has : (x y : Tip) (xs : List Tip) → (y ≡ x) ⊎ Has y xs → Has y (insert x xs)
  unfolding insert
  insert-Has x y [] m = m
  insert-Has x y (z ∷ zs) m = elim (Bool-cases (leb (column z) (column x))) [
    | inl t ↦ rw t m
    | inr f ↦ rw f (elim m [
      | inl e ↦ inr (insert-Has x y zs (inl e))
      | inr (inl e) ↦ inl e
      | inr (inr n) ↦ inr (insert-Has x y zs (inr n))
    ])
  ]

  sorted-Has : (y : Tip) (xs : List Tip) → Has y xs → Has y (sorted xs)
  unfolding sorted
  sorted-Has y [] m = m
  sorted-Has y (x ∷ xs) (inl e) = insert-Has x y (sorted xs) (inl e)
  sorted-Has y (x ∷ xs) (inr m) = insert-Has x y (sorted xs) (inr (sorted-Has y xs m))

  Has-sorted : (y : Tip) (xs : List Tip) → Has y (sorted xs) → Has y xs
  unfolding sorted
  Has-sorted y [] m = m
  Has-sorted y (x ∷ xs) m = elim (Has-insert x y (sorted xs) m) [
    | inl e ↦ inl e
    | inr n ↦ inr (Has-sorted y xs n)
  ]

  insert-IsDescending :
      (x : Tip) (xs : List Tip) → IsDescending column xs → IsDescending column (insert x xs)
  unfolding insert
  insert-IsDescending x [] d = (λ y m. elim m [ ], tt)
  insert-IsDescending x (z ∷ zs) d = elim (Bool-cases (leb (column z) (column x))) [
    | inl t ↦
        let below : column z ≤ column x = leb→le (column z) (column x) t in
        rw t (
          λ y m. elim m [
            | inl e ↦ omega (arith, below, ap column e)
            | inr n ↦ omega (arith, below, d.0 y n)
          ],
          d,
        )
    | inr f ↦ rw f (
      λ y m. elim (Has-insert x y zs m) [
        | inl e ↦
            let above : column x ≤ column z = ground (arith, f) in omega (arith, above, ap column e)
        | inr n ↦ d.0 y n
      ],
      insert-IsDescending x zs d.1,
    )
  ]

  sorted-IsDescending : (xs : List Tip) → IsDescending column (sorted xs)
  unfolding sorted
  sorted-IsDescending [] = tt
  sorted-IsDescending (x ∷ xs) = insert-IsDescending x (sorted xs) (sorted-IsDescending xs)

  take-IsDescending :
      (n : ℕ) (xs : List Tip) → IsDescending column xs → IsDescending column (take n xs)
  take-IsDescending zero xs d = tt
  take-IsDescending (suc n) [] d = tt
  take-IsDescending (suc n) (x ∷ xs) d =
      (λ y m. d.0 y (Has-take n y xs m), take-IsDescending n xs d.1)

  -- What a cut of rows in order leaves out.
  take-rest :
      (n : ℕ) (xs : List Tip) (tip : Tip)
      → IsDescending column xs
      → Has tip xs
      → Has tip (take n xs)
        ⊎ ((length (take n xs) ≡ n) × ((x : Tip) → Has x (take n xs) → column tip ≤ column x))
  take-rest zero xs tip d m = inr (refl, λ x k. elim k [ ])
  take-rest (suc n) [] tip d m = elim m [ ]
  take-rest (suc n) (y ∷ ys) tip d (inl e) = inl (inl e)
  take-rest (suc n) (y ∷ ys) tip d (inr m) = elim (take-rest n ys tip d.1 m) [
    | inl k ↦ inl (inr k)
    | inr (full, above) ↦ inr (
      ap suc full,
      λ x k. elim k [ inl e ↦ omega (arith, d.0 tip m, ap column e) | inr j ↦ above x j ],
    )
  ]

module _ (p : Tip → Bool) (column : Tip → ℕ) (limit : ℕ) (rows : List Tip) where
  abbrev pub greatest : List Tip
  greatest = take limit (sorted column (kept p rows))

  pub greatest_some : (tip : Tip) → Has tip greatest → Has tip rows × (p tip ≡ true)
  greatest_some tip m =
      (kept_iff p rows tip).0
        (Has-sorted column tip (kept p rows) (Has-take limit tip (sorted column (kept p rows)) m))

  pub greatest_ordered : IsDescending column greatest
  greatest_ordered =
      take-IsDescending column limit (sorted column (kept p rows))
        (sorted-IsDescending column (kept p rows))

  pub greatest_rest :
      (tip : Tip)
      → Has tip rows
      → p tip ≡ true
      → Has tip greatest
        ⊎ ((length greatest ≡ limit) × ((x : Tip) → Has x greatest → column tip ≤ column x))
  greatest_rest tip m taken =
      take-rest column limit (sorted column (kept p rows)) tip
        (sorted-IsDescending column (kept p rows))
        (sorted-Has column tip (kept p rows) ((kept_iff p rows tip).1 (m, taken)))
