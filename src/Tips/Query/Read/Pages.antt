-- ===== src/Tips/Query/Read/Pages.antt =====
-- The pages that the paginated reads of src/tips/tips.service.ts answer with.
use native.Mathlib.Nat.{div-lt_iff_lt-mul}
use stellar_tip_api.Common.{
  ℕ, suc, ◌+◌, ◌*◌, ◌/◌, ◌≤◌, Bool, true, false, ◌&&◌, ◌≡◌, ◌≢◌, refl, sym, ◌∙◌, inl, inr, some,
  List, arith, ltb,
}
use stellar_tip_api.Common.Num.{num, pos_inf}
use stellar_tip_api.Common.Runtime.{Js}
use stellar_tip_api.Common.Lists.{length, take, drop, Has-take, Has-drop}
use stellar_tip_api.Http.{ok, lift-inv-state, require_some-inv, pure-inv}
use stellar_tip_api.Entities.{Tip}
use stellar_tip_api.Database.{Database, Has}
use stellar_tip_api.Tips.Query.{
  TipFilterOptions, FilterQuery, page_of, limit_of, build_filter_query,
}
use stellar_tip_api.Tips.Query.Bounds.{query-IsBounded}
use stellar_tip_api.Tips.Query.Read.{
  TipReader, Paginated, format_paginated_result, matches, get_page,
}

last_page : (p n r : ℕ) → ltb p ((n + r) / suc r) ≡ ltb (p * suc r) n
last_page p n r =
    let law = div-lt_iff_lt-mul {k = suc r} {x = n + r} {y = suc p} (omega arith) in
    ground (arith, law)

and-left : (a b : Bool) → (a && b) ≡ true → a ≡ true
and-left true b h = refl
and-left false b h = h

module _ (js : Js) (reader : TipReader) where
  -- the rows that a read is about, in its order
  abbrev pub all_tips : (Tip → Bool) → FilterQuery → Database → List Tip
  all_tips base query db =
      reader.ordered query.sort_by query.sort_order (λ tip. base tip && matches query tip) db.tips

  -- One page of the rows: which rows it holds, their number in all, and whether there are rows
  -- before and behind.
  pub record IsSlice (rows : List Tip) (before limit : ℕ) (page : Paginated) : Type 0 where
    pub items : page.items ≡ take limit (drop (before * limit) rows)
    pub total : page.total ≡ length rows
    pub more_behind : page.has_next_page ≡ ltb (suc before * limit) (length rows)
    pub more_before : page.has_previous_page ≡ ltb 0 before

  cut-IsSlice :
      (base : Tip → Bool) (options : TipFilterOptions) (query : FilterQuery) (db : Database)
      (found : List Tip × ℕ) (before rows : ℕ)
      → page_of options ≡ num (suc before)
      → limit_of options ≡ num (suc rows)
      → query.skip ≡ num (before * suc rows)
      → query.take ≡ num (suc rows)
      → reader.find_and_count
          (λ tip. base tip && matches query tip)
          query.sort_by
          query.sort_order
          query.skip
          query.take
          db.tips
        ≡ some found
      → IsSlice
          (all_tips base query db)
          before
          (suc rows)
          (format_paginated_result found.0 found.1 (page_of options) (limit_of options))
  unfolding format_paginated_result
  cut-IsSlice base options query db found before rows page limit skip taken read =
      let law =
        reader.find_and_count_page (λ tip. base tip && matches query tip) query.sort_by
          query.sort_order (before * suc rows) (suc rows) db.tips in
      let same : some (
        take (suc rows) (drop (before * suc rows) (all_tips base query db)),
        length (all_tips base query db),
      )
          ≡ some found =
        sym law ∙ rw (skip, taken) at read in
      let items : found.0 ≡ take (suc rows) (drop (before * suc rows) (all_tips base query db)) =
        ground arith in
      let total : found.1 ≡ length (all_tips base query db) = ground arith in
      record {
        items = items;
        total = total;
        more_behind =
            rw (page, limit, total) (last_page (suc before) (length (all_tips base query db)) rows);
        more_before = rw page (ground arith);
      }

  -- A read that answers changed nothing. On a finite page it holds, of the rows that the filters
  -- take and in the order asked for, those behind the pages before it, at most the limit of 1 to
  -- 100; it says how many there are in all, and that there is a next page just when rows are left.
  pub page-IsSlice :
      (base : Tip → Bool) (options : TipFilterOptions) (db db' : Database) (page : Paginated)
      → page_of options ≢ pos_inf
      → get_page js reader base options db ≡ (ok page, db')
      → (query : FilterQuery) × (before rows : ℕ) × (build_filter_query js options ≡ ok query)
        × (page_of options ≡ num (suc before))
        × (limit_of options ≡ num (suc rows))
        × (suc rows ≤ 100)
        × IsSlice (all_tips base query db) before (suc rows) page
        × (db' ≡ db)
  unfolding get_page
  page-IsSlice base options db db' page finite h =
      let (query, built, h1) = lift-inv-state (build_filter_query js options) _ db h in
      let bounded = query-IsBounded js options query built in
      let find =
        reader.find_and_count (λ tip. base tip && matches query tip) query.sort_by query.sort_order
          query.skip query.take db.tips in
      let (found, read, h2) = require_some-inv find _ _ db h1 in
      let (made, rest) = pure-inv h2 in
      elim (bounded.skipped) [
        | inl endless ↦ absurd (finite endless)
        | inr (before, page_is, skip) ↦ (
          query,
          before,
          bounded.rows,
          built,
          page_is,
          bounded.limit_taken,
          bounded.at_most_100,
          rw (← made) (
              cut-IsSlice base options query db found before bounded.rows page_is
                bounded.limit_taken skip bounded.taken read),
          rest,
        )
      ]

  -- A finite page of any filters holds stored tips that the read is about, and nothing is written.
  pub listed_on_page :
      (base : Tip → Bool) (options : TipFilterOptions) (db db' : Database) (page : Paginated)
      (tip : Tip)
      → page_of options ≢ pos_inf
      → get_page js reader base options db ≡ (ok page, db')
      → Has tip page.items
      → Has tip db.tips × (base tip ≡ true)
  listed_on_page base options db db' page tip finite h listed =
      let (query, before, rows, built, page_is, limit_is, few, slice, same) =
        page-IsSlice base options db db' page finite h in
      let all = all_tips base query db in
      let in_rest =
        Has-take (suc rows) tip (drop (before * suc rows) all) (rw slice.items at listed) in
      let (stored, taken) =
        (reader.ordered_iff query.sort_by query.sort_order (λ t. base t && matches query t) db.tips
            tip).0
          (Has-drop (before * suc rows) tip all in_rest) in
      (stored, and-left (base tip) (matches query tip) taken)
