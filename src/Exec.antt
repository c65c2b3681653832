-- ===== src/Exec.antt =====
-- Methods that change a state and may raise. What was written before a raise stays written, so the
-- state comes back beside the exception too. A pure function that may raise returns a `Result`.
use guillotina_oauth_server.Prelude.{
  arith, ap, ◌≡◌, ◌⊎◌, inl, inr, refl, String, Bool, true, false, Option,
}

-- The exceptions of the code and of the libraries below it.
pub data Exn : Type 0 where
  -- HTTPBadRequest, with the OAuth error code and its description
  http_bad_request : String → Option String → Exn
  -- HTTPPreconditionFailed
  http_precondition_failed : String → Option String → Exn
  -- asyncpg's error for a primary key that is taken
  unique_violation : Exn
  runtime_error : Exn
  type_error : Exn
  value_error : Exn
  attribute_error : Exn
  -- asyncpg's error for an argument that is not of the column's type
  data_error : Exn
  undefined_table : Exn

pub data Result {ℓ} (A : Type ℓ) : Type ℓ where
  ok : A → Result A
  err : Exn → Result A

abbrev pub is_ok {ℓ} : {A : Type ℓ} → Result A → Bool
is_ok (ok a) = true
is_ok (err e) = false

-- What follows a pure step that may raise.
infixl 5 ◌and_then◌
abbrev pub ◌and_then◌ {ℓ κ} : {A : Type ℓ} {B : Type κ} → Result A → (A → Result B) → Result B
(ok a) and_then f = f a
(err e) and_then f = err e

abbrev pub Exec : Type 0 → Type 0 → Type 0
Exec S A = S → Result A × S

module _ {S A : Type 0} where
  abbrev pub pure : A → Exec S A
  pure a s = (ok a, s)

  abbrev pub raise : Exn → Exec S A
  raise e s = (err e, s)

  abbrev pub lift : Result A → Exec S A
  lift r s = (r, s)

  abbrev pub gets : (S → A) → Exec S A
  gets f s = (ok (f s), s)

abbrev pub modify : {S : Type 0} → (S → S) → Exec S (Unit {0})
modify f s = (ok tt, f s)

infixl 5 ◌>>=◌ ◌>>◌
abbrev pub ◌>>=◌ : {S A B : Type 0} → Exec S A → (A → Exec S B) → Exec S B
◌>>=◌ m f s = let (r, s') = m s in elim r [ ok a ↦ f a s' | err e ↦ (err e, s') ]

abbrev pub ◌>>◌ : {S B : Type 0} → Exec S (Unit {0}) → Exec S B → Exec S B
m >> k = m >>= λ _. k

pub Result-cases {ℓ} :
    {A : Type ℓ} (r : Result A) → ((a : A) × (r ≡ ok a)) ⊎ ((e : Exn) × (r ≡ err e))
Result-cases (ok a) = inl (a, refl)
Result-cases (err e) = inr (e, refl)

-- A value that is returned at the end leaves the state as the last step left it.
pub state_then_pure :
    {S A : Type 0} (m : Exec S (Unit {0})) (a : A) (s : S) → ((m >> pure a) s).1 ≡ (m s).1
state_then_pure m a s = ground arith

-- A step that returns hands its value and its state on.
pub bind_ok :
    {S A B : Type 0} (m : Exec S A) (f : A → Exec S B) {s s' : S} {a : A}
    → m s ≡ (ok a, s')
    → (m >>= f) s ≡ f a s'
bind_ok m f returned = ap (λ x. elim x.0 [ ok a ↦ f a x.1 | err e ↦ (err e, x.1) ]) returned
