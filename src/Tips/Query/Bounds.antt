-- ===== src/Tips/Query/Bounds.antt =====
-- What `buildFilterQuery` of src/tips/tips.service.ts lets through.
use stellar_tip_api.Common.{
  ℕ, zero, suc, ◌*◌, ◌≤◌, Bool, true, false, not, ◌||◌, String, ◌≡◌, refl, ap, ◌∙◌, ◌⊎◌, inl, inr,
  Option, none, some, arith, eq_iff,
}
use stellar_tip_api.Common.Num.{
  Num, nan, pos_inf, neg_inf, fin, pos, negsuc, num, lt_num, pred_num, mul_num,
}
use stellar_tip_api.Common.Runtime.{Js}
use stellar_tip_api.Http.{ok, and_then-ok, throws-ne-ok}
use stellar_tip_api.Tips.Query.{
  TipFilterOptions, FilterQuery, default_num, page_of, limit_of, check, sort_by_of, sort_order_of,
  allowed_sort_by, allowed_sort_order, date_range, asset_filter, amount_range, build_filter_query,
}

check-inv :
    (test : Bool) (message : String) {t : Unit {0}} → check test message ≡ ok t → test ≡ true
check-inv true message h = refl
check-inv false message h = absurd (throws-ne-ok h)

-- A number with a default of at least one, when it is not below one.
default_num-cases :
    (o : Option Num) (d : ℕ)
    → not (lt_num (default_num o (suc d)) (num 1)) ≡ true
    → (default_num o (suc d) ≡ pos_inf) ⊎ ((n : ℕ) × (default_num o (suc d) ≡ num (suc n)))
default_num-cases none d h = inr (d, refl)
default_num-cases (some nan) d h = inr (d, refl)
default_num-cases (some pos_inf) d h = inl refl
default_num-cases (some neg_inf) d h = ground arith
default_num-cases (some (fin (pos zero))) d h = inr (d, refl)
default_num-cases (some (fin (pos (suc n)))) d h = inr (n, refl)
default_num-cases (some (fin (negsuc n))) d h = ground arith

limit-cases :
    (o : Option Num)
    → not (lt_num (default_num o 20) (num 1) || lt_num (num 100) (default_num o 20)) ≡ true
    → (n : ℕ) × (default_num o 20 ≡ num (suc n)) × (suc n ≤ 100)
limit-cases none h = (19, refl, omega arith)
limit-cases (some nan) h = (19, refl, omega arith)
limit-cases (some pos_inf) h = ground arith
limit-cases (some neg_inf) h = ground arith
limit-cases (some (fin (pos zero))) h = (19, refl, omega arith)
limit-cases (some (fin (pos (suc n)))) h = (n, refl, ground arith)
limit-cases (some (fin (negsuc n))) h = ground arith

or-cases : (a b : Bool) → (a || b) ≡ true → (a ≡ true) ⊎ (b ≡ true)
or-cases true b h = inl refl
or-cases false b h = inr h

-- A query that may be run: 1 to 100 rows, from a whole page on, in the order of a known column.
pub record IsBounded (options : TipFilterOptions) (query : FilterQuery) : Type 0 where
  pub rows : ℕ
  pub taken : query.take ≡ num (suc rows)
  pub limit_taken : limit_of options ≡ num (suc rows)
  pub at_most_100 : suc rows ≤ 100
  pub skipped :
      (page_of options ≡ pos_inf)
      ⊎ ((before : ℕ) × (page_of options ≡ num (suc before))
          × (query.skip ≡ num (before * suc rows)))
  pub column : (query.sort_by ≡ "createdAt") ⊎ (query.sort_by ≡ "amount")
  pub direction : (query.sort_order ≡ "ASC") ⊎ (query.sort_order ≡ "DESC")

module _ (js : Js) where
  -- A query that is built takes 1 to 100 rows, the limit that was asked for or 20; it skips the
  -- rows of the pages before the one asked for, where that is finite, and it orders by the date or
  -- the amount, up or down.
  pub query-IsBounded :
      (options : TipFilterOptions) (query : FilterQuery)
      → build_filter_query js options ≡ ok query
      → IsBounded options query
  unfolding build_filter_query
  query-IsBounded options query h =
      let page = page_of options in
      let limit = limit_of options in
      let (x1, page_ok, h1) = and_then-ok (check (not (lt_num page (num 1))) _) _ h in
      let (x2, limit_ok, h2) =
        and_then-ok (check (not (lt_num limit (num 1) || lt_num (num 100) limit)) _) _ h1 in
      let (x3, by_ok, h3) = and_then-ok (check (allowed_sort_by (sort_by_of options)) _) _ h2 in
      let (x4, order_ok, h4) =
        and_then-ok (check (allowed_sort_order (sort_order_of options)) _) _ h3 in
      let (dates, e5, h5) = and_then-ok (date_range js options.start_date options.end_date) _ h4 in
      let (asset, e6, h6) = and_then-ok (asset_filter options.asset) _ h5 in
      let (amount, e7, h7) =
        and_then-ok (amount_range options.min_amount options.max_amount) _ h6 in
      let (rows, limit_is, few) = limit-cases options.limit (check-inv _ _ limit_ok) in
      let built : (query.take ≡ limit)
          × (query.skip ≡ mul_num (pred_num page) limit)
          × (query.sort_by ≡ sort_by_of options)
          × (query.sort_order ≡ sort_order_of options) =
        ground arith in
      record {
        rows = rows;
        taken = built.0 ∙ limit_is;
        limit_taken = limit_is;
        at_most_100 = few;
        skipped = elim (default_num-cases options.page 0 (check-inv _ _ page_ok)) [
          | inl endless ↦ inl endless
          | inr (before, page_is) ↦ inr (
            before,
            page_is,
            built.1
                ∙ ap (λ p. mul_num (pred_num p) limit) page_is
                ∙ ap (λ l. mul_num (num before) l) limit_is,
          )
        ];
        column = elim (or-cases _ _ (check-inv _ _ by_ok)) [
          | inl e ↦ inl (built.2 ∙ (eq_iff (sort_by_of options) "createdAt").0 e)
          | inr e ↦ inr (built.2 ∙ (eq_iff (sort_by_of options) "amount").0 e)
        ];
        direction = elim (or-cases _ _ (check-inv _ _ order_ok)) [
          | inl e ↦ inl (built.3 ∙ (eq_iff (sort_order_of options) "ASC").0 e)
          | inr e ↦ inr (built.3 ∙ (eq_iff (sort_order_of options) "DESC").0 e)
        ];
      }
