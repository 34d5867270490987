-- ===== src/Auth/Sessions/Refine.antt =====
-- The calls of src/auth/auth.service.ts do to the table of refresh tokens what is allowed of the
-- open sessions.
use stellar_tip_api.Common.{
  Bool, true, false, not, ◌&&◌, String, ◌==◌, eq_iff, eq_refl, ◌≡◌, ◌≢◌, refl, sym, ap, ◌∙◌, ◌⊎◌,
  inl, inr, Option, List, [], ◌∷◌, arith, Bool-cases,
}
use stellar_tip_api.Http.{Result}
use stellar_tip_api.Entities.{RefreshToken}
use stellar_tip_api.Database.{Database, Has, set_where}
use stellar_tip_api.Database.Laws.{Has-set_where}
use stellar_tip_api.Auth.Refresh.{revoked}
use stellar_tip_api.Auth.{AuthService, Session}
use stellar_tip_api.Auth.Sessions.{Open, has_token, is_of, without, opened, sessions, Call, Allows}

-- A row for an id, and a row for a token.
abbrev pub IsKeyed : List RefreshToken → Type 0
IsKeyed rows =
    (x y : RefreshToken)
    → Has x rows
    → Has y rows
    → (x.id ≡ y.id) ⊎ (x.columns.token ≡ y.columns.token)
    → x ≡ y

abbrev pub IsFresh : String → List RefreshToken → Type 0
IsFresh token rows = (x : RefreshToken) → Has x rows → x.columns.token ≢ token

pub IsKeyed-insert :
    (row : RefreshToken) (rows : List RefreshToken)
    → IsKeyed rows
    → ((x : RefreshToken) → Has x rows → x.id ≢ row.id)
    → IsFresh row.columns.token rows
    → IsKeyed (row ∷ rows)
IsKeyed-insert row rows keyed id token x y (inl e) (inl f) same = e ∙ sym f
IsKeyed-insert row rows keyed id token x y (inr m) (inr n) same = keyed x y m n same
IsKeyed-insert row rows keyed id token x y (inl e) (inr n) (inl same) =
    absurd (id y n (sym same ∙ ap (λ r. r.id) e))
IsKeyed-insert row rows keyed id token x y (inl e) (inr n) (inr same) =
    absurd (token y n (sym same ∙ ap (λ r. r.columns.token) e))
IsKeyed-insert row rows keyed id token x y (inr m) (inl f) (inl same) =
    absurd (id x m (same ∙ ap (λ r. r.id) f))
IsKeyed-insert row rows keyed id token x y (inr m) (inl f) (inr same) =
    absurd (token x m (same ∙ ap (λ r. r.columns.token) f))

-- A revoked row, or an old one, has the id and the token of the row that it was.
keeps_names :
    (p : RefreshToken → Bool) (x y : RefreshToken)
    → ((p y ≡ true) × (x ≡ record y { columns = revoked y.columns })) ⊎ ((p y ≡ false) × (x ≡ y))
    → (x.id ≡ y.id) × (x.columns.token ≡ y.columns.token)
keeps_names p x y (inl (_, e)) = (ap (λ r. r.id) e, ap (λ r. r.columns.token) e)
keeps_names p x y (inr (_, e)) = (ap (λ r. r.id) e, ap (λ r. r.columns.token) e)

pub IsFresh-revoked :
    (p : RefreshToken → Bool) (token : String) (rows : List RefreshToken)
    → IsFresh token rows
    → IsFresh token (set_where p revoked rows)
IsFresh-revoked p token rows fresh x m same =
    let (y, n, case) = Has-set_where p revoked x rows m in
    let (_, kept) = keeps_names p x y case in fresh y n (sym kept ∙ same)

same_revoked :
    (p : RefreshToken → Bool) (x y z : RefreshToken)
    → ((p z ≡ true) × (x ≡ record z { columns = revoked z.columns })) ⊎ ((p z ≡ false) × (x ≡ z))
    → ((p z ≡ true) × (y ≡ record z { columns = revoked z.columns })) ⊎ ((p z ≡ false) × (y ≡ z))
    → x ≡ y
same_revoked p x y z (inl (_, e)) (inl (_, f)) = e ∙ sym f
same_revoked p x y z (inr (_, e)) (inr (_, f)) = e ∙ sym f
same_revoked p x y z (inl (t, _)) (inr (f, _)) = absurd (ground (arith, t, f))
same_revoked p x y z (inr (f, _)) (inl (t, _)) = absurd (ground (arith, t, f))

pub IsKeyed-revoked :
    (p : RefreshToken → Bool) (rows : List RefreshToken)
    → IsKeyed rows
    → IsKeyed (set_where p revoked rows)
IsKeyed-revoked p rows keyed x y m n same =
    let (x', m', xs) = Has-set_where p revoked x rows m in
    let (y', n', ys) = Has-set_where p revoked y rows n in
    let (x_id, x_token) = keeps_names p x x' xs in
    let (y_id, y_token) = keeps_names p y y' ys in
    let one : y' ≡ x' = keyed y' x' n' m' (elim same [
      | inl id ↦ inl (sym y_id ∙ sym id ∙ x_id)
      | inr token ↦ inr (sym y_token ∙ sym token ∙ x_token)
    ]) in
    same_revoked p x y x' xs (rw one at ys)

-- Revoking rows closes their sessions, where the test reads of an unrevoked row what a session has.
sessions-revoked :
    (p : RefreshToken → Bool) (q : Open → Bool) (rows : List RefreshToken)
    → ((r : RefreshToken) → Has r rows → r.columns.is_revoked ≡ false → p r ≡ q (opened r))
    → sessions (set_where p revoked rows) ≡ without q (sessions rows)
unfolding sessions set_where without
sessions-revoked p q [] same = refl
sessions-revoked p q (r ∷ rs) same =
    let rest = sessions-revoked p q rs (λ x m. same x (inr m)) in
    elim (Bool-cases r.columns.is_revoked) [
      | inl t ↦ elim (Bool-cases (p r)) [ inl s ↦ rw (s, t) rest | inr f ↦ rw (f, t) rest ]
      | inr u ↦
          let this = same r (inl refl) u in
          elim (Bool-cases (p r)) [
            | inl s ↦ rw (s, u, sym this ∙ s) rest
            | inr f ↦ rw (f, u, sym this ∙ f) (ap (λ os. opened r ∷ os) rest)
          ]
    ]

pub Has-sessions :
    (row : RefreshToken) (rows : List RefreshToken)
    → Has row rows
    → row.columns.is_revoked ≡ false
    → Has (opened row) (sessions rows)
unfolding sessions
Has-sessions row [] m u = elim m [ ]
Has-sessions row (r ∷ rs) (inl e) u = rw (← e) (rw u (inl refl))
Has-sessions row (r ∷ rs) (inr m) u =
    let rest = Has-sessions row rs m u in
    elim (Bool-cases r.columns.is_revoked) [ inl t ↦ rw t rest | inr f ↦ rw f (inr rest) ]

id_or_token :
    (row : RefreshToken) (rows : List RefreshToken)
    → IsKeyed rows
    → Has row rows
    → (r : RefreshToken) → Has r rows
    → (r.id == row.id) ≡ (r.columns.token == row.columns.token)
id_or_token row rows keyed m r n = elim (Bool-cases (r.id == row.id)) [
  | inl i ↦
      let same = keyed r row n m (inl ((eq_iff r.id row.id).0 i)) in
      i ∙ sym (rw same (eq_refl row.columns.token))
  | inr i ↦ elim (Bool-cases (r.columns.token == row.columns.token)) [
    | inr t ↦ i ∙ sym t
    | inl t ↦
        let same = keyed r row n m (inr ((eq_iff r.columns.token row.columns.token).0 t)) in
        let shared = ap (λ x. x.id) same in absurd (ground (arith, i, eq_iff r.id row.id, shared))
  ]
]

-- The row of a token is the row of its id.
pub sessions-spent :
    (row : RefreshToken) (rows : List RefreshToken)
    → IsKeyed rows
    → Has row rows
    → sessions (set_where (λ r. r.id == row.id) revoked rows)
      ≡ without (has_token row.columns.token) (sessions rows)
sessions-spent row rows keyed m =
    sessions-revoked (λ r. r.id == row.id) (has_token row.columns.token) rows
      (λ r n unrevoked. id_or_token row rows keyed m r n)

pub sessions-ended :
    (user_id : String) (rows : List RefreshToken)
    → sessions
        (set_where (λ r. r.columns.user_id == user_id && not r.columns.is_revoked) revoked rows)
      ≡ without (is_of user_id) (sessions rows)
sessions-ended user_id rows =
    sessions-revoked (λ r. r.columns.user_id == user_id && not r.columns.is_revoked) (is_of user_id)
      rows (λ r m unrevoked. ground (arith, unrevoked))

module _ (service : AuthService) where
  -- What one call leads to.
  abbrev pub KeepsTo : Call → Result (Option Session) → Database → Database → Type 0
  KeepsTo call answer db db' =
      Allows service call answer (sessions db.refresh_tokens) (sessions db'.refresh_tokens)
      × IsKeyed db'.refresh_tokens
