-- ===== src/Base/Results.antt =====
-- What a Go call ends in: a value, an error value, or a run-time panic.
use mathlib.Core.Path.{◌≡◌, refl, ap, subst}
use mathlib.Core.Logic.{◌⊎◌, inl, inr}
use mathlib.Core.Bool.{Bool, true, false}

pub data Result {ℓ κ} (E : Type ℓ) (A : Type κ) : Type (ℓ ⊔ κ) where
  ok : A → Result E A
  err : E → Result E A
  panic : Result E A

infixl 5 ◌>>=◌ ◌>>◌
abbrev pub ◌>>=◌ {ℓ κ μ} :
    {E : Type ℓ} {A : Type κ} {B : Type μ} → Result E A → (A → Result E B) → Result E B
ok a >>= f = f a
err e >>= f = err e
panic >>= f = panic

abbrev pub ◌>>◌ {ℓ κ} : {E : Type ℓ} {B : Type κ} → Result E (Unit {0}) → Result E B → Result E B
m >> k = m >>= λ _. k

-- `if test { return e }`
abbrev pub fail_if {ℓ} : {E : Type ℓ} → Bool → E → Result E (Unit {0})
fail_if true e = err e
fail_if false e = ok tt

-- `if err != nil { return errors.Errorf(... err) }`
abbrev pub or_fail {ℓ κ μ} :
    {E : Type ℓ} {F : Type κ} {A : Type μ} → Result E A → (E → F) → Result F A
or_fail (ok a) f = ok a
or_fail (err e) f = err (f e)
or_fail panic f = panic

ok-injective {ℓ κ} :
    {E : Type ℓ} {A : Type κ} (a b : A) → ◌≡◌ {A = Result E A} (ok a) (ok b) → a ≡ b
ok-injective a b h = cc

pub Result-cases {ℓ κ} :
    {E : Type ℓ} {A : Type κ} (r : Result E A)
    → ((a : A) × (r ≡ ok a)) ⊎ (((e : E) × (r ≡ err e)) ⊎ (r ≡ panic))
Result-cases (ok a) = inl (a, refl)
Result-cases (err e) = inr (inl (e, refl))
Result-cases panic = inr (inr refl)

-- a chain that returns a value did so at its first step
pub after_step {ℓ κ μ ν} :
    {E : Type ℓ} {A : Type κ} {B : Type μ} {C : Type ν} (m : Result E A) {f : A → Result E B}
    {b : B}
    → (m >>= f) ≡ ok b
    → ((a : A) → m ≡ ok a → f a ≡ ok b → C)
    → C
after_step (ok a) h k = k a refl h
after_step (err e) h k = absurd cc
after_step panic h k = absurd cc

pub value_of_or_fail {ℓ κ μ} :
    {E : Type ℓ} {F : Type κ} {A : Type μ} (r : Result E A) (g : E → F) {a : A}
    → or_fail r g ≡ ok a
    → r ≡ ok a
value_of_or_fail (ok a) g h = ap ok (ok-injective _ _ h)
value_of_or_fail (err e) g h = absurd cc
value_of_or_fail panic g h = absurd cc

pub passed {ℓ} :
    {E : Type ℓ} (test : Bool) (e : E) {u : Unit {0}} → fail_if test e ≡ ok u → test ≡ false
passed true e h = absurd cc
passed false e h = refl

-- `P` holds of the value, where there is one.
pub data Yields {ℓ κ μ} {E : Type ℓ} {A : Type κ} (P : A → Type μ)
    : Result E A → Type (ℓ ⊔ κ ⊔ μ) where
  value : {a : A} → P a → Yields P (ok a)
  error : {e : E} → Yields P (err e)
  panics : Yields P panic

module _ {ℓ κ μ} {E : Type ℓ} {A : Type κ} {P : A → Type μ} where
  pub Yields-value : {a : A} {r : Result E A} → Yields P r → r ≡ ok a → P a
  Yields-value {a} (value {a = b} h) e = subst P (ok-injective b a e) h
  Yields-value error same = cc
  Yields-value panics same = cc

  pub Yields->>= {ν} :
      {B : Type ν} (m : Result E B) (f : B → Result E A)
      → ((b : B) → Yields P (f b))
      → Yields P (m >>= f)
  Yields->>= (ok b) f h = h b
  Yields->>= (err e) f h = error
  Yields->>= panic f h = panics

  -- a value that was bound satisfies what its action yields
  pub Yields-bind {ν ξ} :
      {B : Type ν} {Q : B → Type ξ} {m : Result E B} (f : B → Result E A)
      → Yields Q m
      → ((b : B) → Q b → Yields P (f b))
      → Yields P (m >>= f)
  Yields-bind f (value {a = b} q) h = h b q
  Yields-bind f error h = error
  Yields-bind f panics h = panics

  pub Yields-or_fail {ν} :
      {F : Type ν} {r : Result E A} (f : E → F) → Yields P r → Yields P (or_fail r f)
  Yields-or_fail f (value h) = value h
  Yields-or_fail f error = error
  Yields-or_fail f panics = panics
