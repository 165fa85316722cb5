-- ===== src/Base/Actions.antt =====
-- Handlers that read and change a state and may fail on the way: what is changed before an error
-- stays changed.
use mathlib.Core.Path.{◌≡◌, refl, subst, sym}
use deso_backend.Base.Results.{Result, ok, err, panic}

abbrev pub Action : Type 0 → Type 0 → Type 0 → Type 0
Action E S A = S → Result E A × S

module _ {E S : Type 0} where
  infixl 5 ◌>>=◌ ◌>>◌
  -- after an error nothing more is done
  abbrev pub step : {A B : Type 0} → (A → Action E S B) → Result E A → Action E S B
  step f (ok a) s = f a s
  step f (err e) s = (err e, s)
  step f panic s = (panic, s)

  abbrev pub ◌>>=◌ : {A B : Type 0} → Action E S A → (A → Action E S B) → Action E S B
  ◌>>=◌ m f s = step f (m s).0 (m s).1

  abbrev pub ◌>>◌ : {B : Type 0} → Action E S (Unit {0}) → Action E S B → Action E S B
  ◌>>◌ m k = m >>= λ u. k

  -- a step that does not touch the state
  abbrev pub lift : {A : Type 0} → Result E A → Action E S A
  lift r s = (r, s)

  -- What a call has done: a value and its state satisfy `Q`, and the state after an error or a panic
  -- satisfies `I`.
  abbrev pub After : {A : Type 0} → (A → S → Type 0) → (S → Type 0) → Result E A → S → Type 0
  After Q I (ok a) s = Q a s
  After Q I (err e) s = I s
  After Q I panic s = I s

  module _ {A B : Type 0} (R : B → S → Type 0) (I : S → Type 0) where
    step-After :
        (f : A → Action E S B) (r : Result E A) (s : S)
        → ((a : A) → r ≡ ok a → After R I (f a s).0 (f a s).1)
        → ((¬ ((a : A) × (r ≡ ok a))) → I s)
        → After R I (step f r s).0 (step f r s).1
    step-After f (ok a) s next failed = next a refl
    step-After f (err e) s next failed = failed (λ (a, same). absurd cc)
    step-After f panic s next failed = failed (λ (a, same). absurd cc)

    -- a step, and what comes after its value
    pub bind_at :
        (m : Action E S A) (f : A → Action E S B) (s : S)
        → ((¬ ((a : A) × ((m s).0 ≡ ok a))) → I (m s).1)
        → ((a : A) → (m s).0 ≡ ok a → After R I (f a (m s).1).0 (f a (m s).1).1)
        → After R I ((m >>= f) s).0 ((m >>= f) s).1
    bind_at m f s failed next = step-After f (m s).0 (m s).1 next failed

    -- a step that does not touch the state
    pub lift_at :
        (r : Result E A) (f : A → Action E S B) (s : S)
        → I s
        → ((a : A) → r ≡ ok a → After R I (f a s).0 (f a s).1)
        → After R I ((lift r >>= f) s).0 ((lift r >>= f) s).1
    lift_at r f s kept next = step-After f r s next (λ no_value. kept)

    -- a step that leaves the state as it is
    pub read_at :
        (m : Action E S A) (f : A → Action E S B) (s : S)
        → (m s).1 ≡ s
        → I s
        → ((a : A) → (m s).0 ≡ ok a → After R I (f a s).0 (f a s).1)
        → After R I ((m >>= f) s).0 ((m >>= f) s).1
    read_at m f s same kept next =
        subst (λ (t : S). After R I (step f (m s).0 t).0 (step f (m s).0 t).1) (sym same)
          (step-After f (m s).0 s next (λ no_value. kept))

    chain-After :
        (Q : A → S → Type 0) (f : A → Action E S B) (r : Result E A) (s : S)
        → After Q I r s
        → ((a : A) → Q a s → After R I (f a s).0 (f a s).1)
        → After R I (step f r s).0 (step f r s).1
    chain-After Q f (ok a) s q next = next a q
    chain-After Q f (err e) s q next = q
    chain-After Q f panic s q next = q

    -- a step of which a lemma is at hand
    pub chain_at :
        (Q : A → S → Type 0) (m : Action E S A) (f : A → Action E S B) (s : S)
        → After Q I (m s).0 (m s).1
        → ((a : A) → Q a (m s).1 → After R I (f a (m s).1).0 (f a (m s).1).1)
        → After R I ((m >>= f) s).0 ((m >>= f) s).1
    chain_at Q m f s first next = chain-After Q f (m s).0 (m s).1 first next

  module _ {B : Type 0} (R : B → S → Type 0) (I : S → Type 0) where
    result-After :
        (r : Result E B) (s : S)
        → ((¬ ((a : B) × (r ≡ ok a))) → I s)
        → ((a : B) → r ≡ ok a → R a s)
        → After R I r s
    result-After (ok a) s failed last = last a refl
    result-After (err e) s failed last = failed (λ (a, same). absurd cc)
    result-After panic s failed last = failed (λ (a, same). absurd cc)

    -- the last step
    pub end_at :
        (m : Action E S B) (s : S)
        → ((¬ ((a : B) × ((m s).0 ≡ ok a))) → I (m s).1)
        → ((a : B) → (m s).0 ≡ ok a → R a (m s).1)
        → After R I (m s).0 (m s).1
    end_at m s failed last = result-After (m s).0 (m s).1 failed last

  pub After-value :
      {A : Type 0} (Q : A → S → Type 0) (I : S → Type 0) (r : Result E A) (s : S) {a : A}
      → After Q I r s
      → r ≡ ok a
      → Q a s
  After-value Q I r s q e = subst (λ (x : Result E _). After Q I x s) e q

  pub After-map :
      {A : Type 0} (Q R : A → S → Type 0) (I : S → Type 0)
      → ((a : A) (s : S) → Q a s → R a s)
      → (r : Result E A) (s : S) → After Q I r s
      → After R I r s
  After-map Q R I weaken (ok a) s q = weaken a s q
  After-map Q R I weaken (err e) s q = q
  After-map Q R I weaken panic s q = q

  -- what holds after every outcome
  pub After-always :
      {A : Type 0} (Q : A → S → Type 0) (I : S → Type 0)
      → ((a : A) (s : S) → Q a s → I s)
      → (r : Result E A) (s : S) → After Q I r s
      → I s
  After-always Q I weaken (ok a) s q = weaken a s q
  After-always Q I weaken (err e) s q = q
  After-always Q I weaken panic s q = q

-- A call that returns a value.
abbrev pub Returns : {E S A : Type 0} → Action E S A → S → Type 0
Returns {A = A} m s = (a : A) × ((m s).0 ≡ ok a)

module _ {E S A B : Type 0} where
  pub bind-Returns :
      (m : Action E S A) (f : A → Action E S B) (s : S) (a : A)
      → (m s).0 ≡ ok a
      → Returns (f a) (m s).1
      → Returns (m >>= f) s
  bind-Returns m f s a e next = rw e next

  -- a step that leaves the state as it is
  pub read-Returns :
      (m : Action E S A) (f : A → Action E S B) (s : S) (a : A)
      → (m s).0 ≡ ok a
      → (m s).1 ≡ s
      → Returns (f a) s
      → Returns (m >>= f) s
  read-Returns m f s a e same next =
      bind-Returns m f s a e (subst (λ (t : S). Returns (f a) t) (sym same) next)

  pub lift-Returns :
      (r : Result E A) (f : A → Action E S B) (s : S) (a : A)
      → r ≡ ok a
      → Returns (f a) s
      → Returns (lift r >>= f) s
  lift-Returns r f s a e next = rw e next
