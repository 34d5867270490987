-- ===== src/Http.antt =====
-- What a handler or a service does: it reads and writes a state and returns a value or throws.
-- The exceptions are those of @nestjs/common that the program throws, with their messages;
-- `error` is a plain `Error`, `failure` whatever a third party throws.
use stellar_tip_api.Common.{
  Bool, true, false, String, ◌≡◌, refl, sym, ap, arith, Option, none, some, ◌⊎◌, inl, inr,
}

pub data Exception : Type 0 where
  bad_request unauthorized forbidden not_found conflict error : String → Exception
  failure : Exception

pub data Result {ℓ} (A : Type ℓ) : Type ℓ where
  ok : A → Result A
  throws : Exception → Result A

-- The rest of a computation that changes nothing.
abbrev pub and_then {ℓ κ} : {A : Type ℓ} {B : Type κ} → Result A → (A → Result B) → Result B
and_then (ok a) f = f a
and_then (throws e) f = throws e

-- What was written before a throw stays written.
abbrev pub Action {ℓ} : Type ℓ → Type ℓ → Type ℓ
Action S A = S → Result A × S

abbrev pub pure {ℓ} : {S A : Type ℓ} → A → Action S A
pure a s = (ok a, s)

abbrev pub throw {ℓ} : {S A : Type ℓ} → Exception → Action S A
throw e s = (throws e, s)

abbrev pub lift {ℓ} : {S A : Type ℓ} → Result A → Action S A
lift r s = (r, s)

abbrev pub resume {ℓ} : {S A B : Type ℓ} → Result A → (A → Action S B) → Action S B
resume (ok a) f s = f a s
resume (throws e) f s = (throws e, s)

infixl 5 ◌>>=◌ ◌>>◌
abbrev pub ◌>>=◌ {ℓ} : {S A B : Type ℓ} → Action S A → (A → Action S B) → Action S B
◌>>=◌ m f s = let (r, s') = m s in resume r f s'

abbrev pub ◌>>◌ {ℓ} : {S A B : Type ℓ} → Action S A → Action S B → Action S B
m >> n = m >>= λ _. n

-- `if (!test) throw e`
abbrev pub require {ℓ} : {S : Type ℓ} → Bool → Exception → Action S (Unit {ℓ})
require true e = pure tt
require false e = throw e

-- `if (!found) throw e`
abbrev pub require_some {ℓ} : {S A : Type ℓ} → Option A → Exception → Action S A
require_some (some a) e = pure a
require_some none e = throw e

pub throws-ne-ok {ℓ} : {A : Type ℓ} {e : Exception} {a : A} → throws e ≡ ok a → ⊥
throws-ne-ok h = cc

pub Result-cases {ℓ} :
    {A : Type ℓ} (r : Result A) → ((a : A) × (r ≡ ok a)) ⊎ ((e : Exception) × (r ≡ throws e))
Result-cases (ok a) = inl (a, refl)
Result-cases (throws e) = inr (e, refl)

pub and_then-ok {ℓ κ} :
    {A : Type ℓ} {B : Type κ} (r : Result A) (f : A → Result B) {b : B}
    → and_then r f ≡ ok b
    → (a : A) × (r ≡ ok a) × (f a ≡ ok b)
and_then-ok (ok a) f h = (a, refl, h)
and_then-ok (throws e) f h = absurd (throws-ne-ok h)

module _ {ℓ} {S A : Type ℓ} where
  pub pure-inv : {a b : A} {s s' : S} → pure a s ≡ (ok b, s') → (a ≡ b) × (s' ≡ s)
  pure-inv h = (ground arith, sym (ap (λ p. p.1) h))

  -- A test that was passed held, and left the state as it was.
  pub require-inv :
      (test : Bool) (e : Exception) (m : Action S A) (s : S) {a : A}
      → ((require test e >> m) s).0 ≡ ok a
      → (test ≡ true) × ((require test e >> m) s ≡ m s)
  require-inv true e m s h = (refl, refl)
  require-inv false e m s h = absurd (throws-ne-ok h)

  pub require-inv-state :
      (test : Bool) (e : Exception) (m : Action S A) (s : S) {a : A} {s' : S}
      → (require test e >> m) s ≡ (ok a, s')
      → (test ≡ true) × (m s ≡ (ok a, s'))
  require-inv-state true e m s h = (refl, h)
  require-inv-state false e m s h = absurd (throws-ne-ok (ap (λ p. p.0) h))

  pub require-throws-cases :
      (test : Bool) (x : Exception) (m : Action S A) (s : S) {e : Exception} {s' : S}
      → (require test x >> m) s ≡ (throws e, s')
      → (s' ≡ s) ⊎ (m s ≡ (throws e, s'))
  require-throws-cases true x m s h = inr h
  require-throws-cases false x m s h = inl (sym (ap (λ p. p.1) h))

module _ {ℓ} {S A B : Type ℓ} where
  pub lift-inv :
      (r : Result B) (f : B → Action S A) (s : S) {a : A}
      → ((lift r >>= f) s).0 ≡ ok a
      → (b : B) × (r ≡ ok b)
  lift-inv (ok b) f s h = (b, refl)
  lift-inv (throws e) f s h = absurd (throws-ne-ok h)

  -- An action after a read that throws does not run.
  pub bind-throws :
      (m : Action S B) (f : B → Action S A) (s s' : S) {e : Exception}
      → m s ≡ (throws e, s')
      → (m >>= f) s ≡ (throws e, s')
  bind-throws m f s s' h = rw h refl

  pub bind-ok :
      (m : Action S B) (f : B → Action S A) (s s' : S) {b : B}
      → m s ≡ (ok b, s')
      → (m >>= f) s ≡ f b s'
  bind-ok m f s s' h = rw h refl

  resume-inv :
      (p : Result B × S) (f : B → Action S A) {a : A} {s' : S}
      → resume p.0 f p.1 ≡ (ok a, s')
      → (b : B) × (t : S) × (p ≡ (ok b, t)) × (f b t ≡ (ok a, s'))
  resume-inv (ok b, t) f h = (b, t, refl, h)
  resume-inv (throws e, t) f h = absurd (throws-ne-ok (ap (λ p. p.0) h))

  -- Inversion of a bind that succeeded.
  pub bind-inv :
      (m : Action S B) (f : B → Action S A) (s : S) {a : A} {s' : S}
      → (m >>= f) s ≡ (ok a, s')
      → (b : B) × (t : S) × (m s ≡ (ok b, t)) × (f b t ≡ (ok a, s'))
  bind-inv m f s h = resume-inv (m s) f h

  -- A value that was required is there.
  pub require_some-inv :
      (o : Option B) (e : Exception) (f : B → Action S A) (s : S) {a : A} {s' : S}
      → (require_some o e >>= f) s ≡ (ok a, s')
      → (b : B) × (o ≡ some b) × (f b s ≡ (ok a, s'))
  require_some-inv (some b) e f s h = (b, refl, h)
  require_some-inv none e f s h = absurd (throws-ne-ok (ap (λ p. p.0) h))

  pub lift-inv-state :
      (r : Result B) (f : B → Action S A) (s : S) {a : A} {s' : S}
      → (lift r >>= f) s ≡ (ok a, s')
      → (b : B) × (r ≡ ok b) × (f b s ≡ (ok a, s'))
  lift-inv-state (ok b) f s h = (b, refl, h)
  lift-inv-state (throws e) f s h = absurd (throws-ne-ok (ap (λ p. p.0) h))

  -- Of a bind that threw, the first part threw, or the second did.
  resume-throws :
      (p : Result B × S) (f : B → Action S A) {e : Exception} {s' : S}
      → resume p.0 f p.1 ≡ (throws e, s')
      → (p ≡ (throws e, s')) ⊎ ((b : B) × (t : S) × (p ≡ (ok b, t)) × (f b t ≡ (throws e, s')))
  resume-throws (ok b, t) f h = inr (b, t, refl, h)
  resume-throws (throws e, t) f h = inl (ground arith)

  pub bind-throws-cases :
      (m : Action S B) (f : B → Action S A) (s : S) {e : Exception} {s' : S}
      → (m >>= f) s ≡ (throws e, s')
      → (m s ≡ (throws e, s')) ⊎ ((b : B) × (t : S) × (m s ≡ (ok b, t)) × (f b t ≡ (throws e, s')))
  bind-throws-cases m f s h = resume-throws (m s) f h

  pub lift-throws-cases :
      (r : Result B) (f : B → Action S A) (s : S) {e : Exception} {s' : S}
      → (lift r >>= f) s ≡ (throws e, s')
      → (s' ≡ s) ⊎ ((b : B) × (r ≡ ok b) × (f b s ≡ (throws e, s')))
  lift-throws-cases (ok b) f s h = inr (b, refl, h)
  lift-throws-cases (throws e) f s h = inl (sym (ap (λ p. p.1) h))

  pub require_some-throws-cases :
      (o : Option B) (x : Exception) (f : B → Action S A) (s : S) {e : Exception} {s' : S}
      → (require_some o x >>= f) s ≡ (throws e, s')
      → (s' ≡ s) ⊎ ((b : B) × (o ≡ some b) × (f b s ≡ (throws e, s')))
  require_some-throws-cases (some b) x f s h = inr (b, refl, h)
  require_some-throws-cases none x f s h = inl (sym (ap (λ p. p.1) h))
