-- ===== src/SpendingLimits/Levels.antt =====
-- A value that is set in a map and read back with all others (routes/transaction.go).
use deso_backend.Base.{
  ◌≡◌, ◌≢◌, inl, inr, refl, sym, ap, subst, ◌∙◌, true, false, [], ◌∷◌, All, Result, ok, Bool-cases,
  arith, after_step,
}
use deso_backend.SpendingLimits.{KeyTest, GoMap, find, insert, value_at, set_in, read_all}
use deso_backend.SpendingLimits.Maps.{apart_at, Updates, insert-All}

module _ {A W V P K E : Type 0} (ka : KeyTest A) (kt : KeyTest K) (empty : W)
    (left : A → Result E P) (name : P → A) (IsGood : W → Type 0)
    (read : P → W → GoMap K V → Result E (GoMap K V)) where
  -- the names of a map are read back
  abbrev pub AreNames : GoMap A W → Type 0
  AreNames m = All (λ (e : A × W). (p : P) × (left e.0 ≡ ok p) × (e.0 ≡ name p) × IsGood e.1) m

  value_here :
      (a a1 : A) (w : W) (m : GoMap A W)
      → ka.same a1 a ≡ true
      → value_at ka empty a ((a1, w) ∷ m) ≡ w
  unfolding value_at find
  value_here a a1 w m e = rw (value_at, e) refl

  value_there :
      (a a1 : A) (w : W) (m : GoMap A W)
      → ka.same a1 a ≡ false
      → value_at ka empty a ((a1, w) ∷ m) ≡ value_at ka empty a m
  unfolding value_at find
  value_there a a1 w m e = rw (value_at, e) refl

  set_here :
      (a a1 : A) (put : W → W) (w : W) (m : GoMap A W)
      → ka.same a1 a ≡ true
      → set_in ka empty a put ((a1, w) ∷ m) ≡ (a, put w) ∷ m
  unfolding set_in insert
  set_here a a1 put w m e = rw (e, value_here a a1 w m e) refl

  set_there :
      (a a1 : A) (put : W → W) (w : W) (m : GoMap A W)
      → ka.same a1 a ≡ false
      → set_in ka empty a put ((a1, w) ∷ m) ≡ (a1, w) ∷ set_in ka empty a put m
  unfolding set_in insert
  set_there a a1 put w m e =
      rw e (ap (λ (z : W). (a1, w) ∷ insert ka a (put z) m) (value_there a a1 w m e))

  read_cons :
      (a : A) (p : P) (w : W) (start : GoMap K V) (m : GoMap A W) {r : GoMap K V}
      → left a ≡ ok p
      → read_all left read start m ≡ ok r
      → read_all left read start ((a, w) ∷ m) ≡ read p w r
  unfolding read_all
  read_cons a p w start m is_p is_r = rw (read_all, is_r, is_p) refl

  -- the value of a name is read with an entry set
  abbrev pub Sets : P → K → V → (W → W) → Type 0
  Sets p l v put =
      (w : W) (r x : GoMap K V)
      → IsGood w
      → read p w r ≡ ok x
      → (x' : GoMap K V) × (read p (put w) r ≡ ok x') × Updates kt l v x x'

  -- the value of a name is read onto a map and onto the map with an entry set
  abbrev pub Keeps : P → K → V → Type 0
  Keeps p l v =
      (w : W) (r r' x : GoMap K V)
      → IsGood w
      → Updates kt l v r r'
      → read p w r ≡ ok x
      → (x' : GoMap K V) × (read p w r' ≡ ok x') × Updates kt l v x x'

  pub read_all_set :
      (a : A) (p0 : P) (l : K) (v : V) (put : W → W) (start : GoMap K V) (m : GoMap A W)
      {x : GoMap K V}
      → left a ≡ ok p0
      → a ≡ name p0
      → IsGood empty
      → ((r : GoMap K V) → read p0 empty r ≡ ok r)
      → Sets p0 l v put
      → ((p : P) → p ≢ p0 → Keeps p l v)
      → AreNames m
      → read_all left read start m ≡ ok x
      → (x' : GoMap K V) × (read_all left read start (set_in ka empty a put m) ≡ ok x')
        × Updates kt l v x x'
  unfolding read_all set_in insert value_at find
  read_all_set a p0 l v put start [] {x} is_p0 is_name0 good nothing sets keeps names h =
      let (x', f, up) = sets empty start start good (nothing start) in
      let same : start ≡ x = ground (arith, h) in
      (
        x',
        read_cons a p0 (put empty) start [] is_p0 refl ∙ f,
        subst (λ (y : GoMap K V). Updates kt l v y x') same up,
      )
  read_all_set a p0 l v put start ((a1, w) ∷ m) {x} is_p0 is_name0 good nothing sets keeps
        ((p1, is_p1, is_name1, good1), names) h =
      after_step (read_all left read start m) h λ others e1 h1.
        let read1 : read p1 w others ≡ ok x = ground (arith, is_p1, h1) in
        elim (Bool-cases (ka.same a1 a)) [
          | inl e ↦
              let one : p1 ≡ p0 = ground (arith, is_p1, is_p0, ka.same_lem a1 a e) in
              let (x', f, up) =
                sets w others x good1 (subst (λ (q : P). read q w others ≡ ok x) one read1) in
              (
                x',
                ap (read_all left read start) (set_here a a1 put w m e)
                    ∙ read_cons a p0 (put w) start m is_p0 e1
                    ∙ f,
                up,
              )
          | inr e ↦
              let (x1, f1, up1) =
                read_all_set a p0 l v put start m is_p0 is_name0 good nothing sets keeps names e1 in
              let apart = apart_at ka a1 a e in
              let (x2, f2, up2) =
                keeps p1 (λ is. apart (is_name1 ∙ ap name is ∙ sym is_name0)) w others x1 x good1
                  up1 read1 in
              (
                x2,
                ap (read_all left read start) (set_there a a1 put w m e)
                    ∙ read_cons a1 p1 w start (set_in ka empty a put m) is_p1 f1
                    ∙ f2,
                up2,
              )
        ]

  -- the whole map is read onto a map and onto the map with an entry set
  pub read_all_kept :
      (l : K) (v : V) (m : GoMap A W) (r r' : GoMap K V) {x : GoMap K V}
      → ((a : A) (p : P) → left a ≡ ok p → Keeps p l v)
      → AreNames m
      → Updates kt l v r r'
      → read_all left read r m ≡ ok x
      → (x' : GoMap K V) × (read_all left read r' m ≡ ok x') × Updates kt l v x x'
  unfolding read_all
  read_all_kept l v [] r r' {x} keeps names up h =
      let same : r ≡ x = ground (arith, h) in
      (r', refl, subst (λ (y : GoMap K V). Updates kt l v y r') same up)
  read_all_kept l v ((a, w) ∷ m) r r' {x} keeps ((p, is_p, is_name, good), names) up h =
      after_step (read_all left read r m) h λ others e1 h1.
        let read1 : read p w others ≡ ok x = ground (arith, is_p, h1) in
        let (x1, f1, up1) = read_all_kept l v m r r' keeps names up e1 in
        let (x2, f2, up2) = keeps a p is_p w others x1 x good up1 read1 in
        (x2, read_cons a p w r' m is_p f1 ∙ f2, up2)

  value_at-IsGood :
      (a : A) (m : GoMap A W) → IsGood empty → AreNames m → IsGood (value_at ka empty a m)
  unfolding value_at find
  value_at-IsGood a [] good names = good
  value_at-IsGood a ((a1, w) ∷ m) good ((p, is_p, is_name, good1), names) =
      elim (Bool-cases (ka.same a1 a)) [
        | inl e ↦ rw (value_here a a1 w m e) good1
        | inr e ↦ rw (value_there a a1 w m e) (value_at-IsGood a m good names)
      ]

  pub set_in-AreNames :
      (p : P) (put : W → W) (m : GoMap A W)
      → left (name p) ≡ ok p
      → IsGood empty
      → ((w : W) → IsGood w → IsGood (put w))
      → AreNames m
      → AreNames (set_in ka empty (name p) put m)
  unfolding set_in
  set_in-AreNames p put m is_p good puts names =
      insert-All ka (λ (e : A × W). (q : P) × (left e.0 ≡ ok q) × (e.0 ≡ name q) × IsGood e.1)
        (name p) (put (value_at ka empty (name p) m)) m
        (p, is_p, refl, puts (value_at ka empty (name p) m) (value_at-IsGood (name p) m good names))
        names
