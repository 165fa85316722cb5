-- ===== src/ExtraData/Numerals.antt =====
-- What Go's strconv does with integers of 64 bits in base 10.
use deso_backend.Base.{
  ℕ, zero, suc, ◌+◌, ◌-◌, ◌*◌, ◌/◌, ◌%◌, ◌^◌, ◌≤◌, ◌<◌, ◌≡◌, inl, inr, refl, ap, ◌∙◌, Bool, true,
  false, ◌&&◌, [], ◌∷◌, Bytes, Result, ok, err, ◌>>=◌, arith, ltb, leb, ◌==◌, if◌then◌else◌,
  Bool-cases, ℤ, pos, negsuc, after_step, subst, ltb→lt,
}
use native.Mathlib.Numerals.{unary_clauses}

abbrev pub is_digit : ℕ → Bool
is_digit c = leb 48 c && leb c 57

-- the loop of `strconv.ParseUint`; an error stands for one of syntax or range
unfoldable pub parse_digits : ℕ → Bytes → Result Bytes ℕ
parse_digits n [] = ok n
parse_digits n (c ∷ text) =
    let next = n * 10 + (c - 48) in
    let rest = parse_digits next text in if is_digit c && ltb next (2 ^ 64) then rest else err []

unfoldable pub parse_uint : Bytes → Result Bytes ℕ
parse_uint [] = err []
parse_uint (c ∷ text) = parse_digits 0 (c ∷ text)

-- a negative number has the sign that was read, and 2^63 at most
unfoldable pub negative : ℕ → Result Bytes ℤ
negative zero = ok (pos 0)
negative (suc n) = if ltb n (2 ^ 63) then ok (negsuc n) else err []

unfoldable pub parse_int : Bytes → Result Bytes ℤ
parse_int [] = err []
parse_int (c ∷ text) =
    if c == b'-'
    then (parse_uint text >>= negative)
    else ((if c == b'+' then parse_uint text else parse_uint (c ∷ text)) >>= λ n.
        if ltb n (2 ^ 63) then ok (pos n) else err [])

-- the digits of a number, before a text
unfoldable pub format_digits : (fuel n : ℕ) → Bytes → Bytes
format_digits zero n text = text
format_digits (suc fuel) n text =
    let rest = format_digits fuel (n / 10) ((48 + n % 10) ∷ text) in
    if n / 10 == 0 then (48 + n % 10) ∷ text else rest

-- a number of 64 bits has 20 digits at most
unfoldable pub format_uint : ℕ → Bytes
format_uint n = format_digits 20 n []

unfoldable pub format_int : ℤ → Bytes
format_int (pos n) = format_uint n
format_int (negsuc n) = b'-' ∷ format_uint (n + 1)

abbrev pub IsInt64 : ℤ → Type 0
IsInt64 (pos n) = n < 2 ^ 63
IsInt64 (negsuc n) = n < 2 ^ 63

parse_digits-bound :
    (n : ℕ) (text : Bytes) {m : ℕ} → n < 2 ^ 64 → parse_digits n text ≡ ok m → m < 2 ^ 64
unfolding parse_digits
parse_digits-bound n [] h e = ground (arith, h, e)
parse_digits-bound n (c ∷ text) h e =
    elim (Bool-cases (is_digit c && ltb (n * 10 + (c - 48)) (2 ^ 64))) [
      | inl f ↦ parse_digits-bound (n * 10 + (c - 48)) text (ground (arith, f)) (rw f at e)
      | inr f ↦ absurd (cc (rw f at e))
    ]

pub parse_uint-bound : (text : Bytes) {m : ℕ} → parse_uint text ≡ ok m → m < 2 ^ 64
unfolding parse_uint
parse_uint-bound [] e = absurd cc
parse_uint-bound (c ∷ text) e = parse_digits-bound 0 (c ∷ text) (omega arith) e

is_digit_shifted : (d : ℕ) → d < 10 → is_digit (48 + d) ≡ true
is_digit_shifted d h = ground arith

parse_digit :
    (n d : ℕ) (text : Bytes)
    → d < 10
    → n * 10 + d < 2 ^ 64
    → parse_digits n ((48 + d) ∷ text) ≡ parse_digits (n * 10 + d) text
unfolding parse_digits
parse_digit n d text h k =
    let value : n * 10 + (48 + d - 48) ≡ n * 10 + d = omega arith in
    let small : ltb (n * 10 + d) (2 ^ 64) ≡ true = ground arith in
    rw (value, is_digit_shifted d h, small) refl

below_tenth : (n fuel : ℕ) → n < 10 ^ suc fuel → n / 10 < 10 ^ fuel
below_tenth n fuel h = let h' = simp unary_clauses at h in omega arith

parse-format_digits :
    (fuel n : ℕ) (text : Bytes)
    → n < 10 ^ fuel
    → n < 2 ^ 64
    → parse_digits 0 (format_digits fuel n text) ≡ parse_digits n text
unfolding format_digits
parse-format_digits zero n text h k = ap (λ x. parse_digits x text) (omega arith)
parse-format_digits (suc fuel) n text h k = elim (Bool-cases (n / 10 == 0)) [
  | inl e ↦
      rw (e, format_digits)
        (parse_digit 0 (n % 10) text (omega arith) (omega arith)
          ∙ ap (λ x. parse_digits x text) (ground (arith, e)))
  | inr e ↦
      rw (e, format_digits)
        (parse-format_digits fuel (n / 10) ((48 + n % 10) ∷ text) (below_tenth n fuel h)
            (omega arith)
          ∙ parse_digit (n / 10) (n % 10) text (omega arith) (omega arith)
          ∙ ap (λ x. parse_digits x text) (omega arith))
]

-- a text that begins with a digit
abbrev HasDigit : Bytes → Type 0
HasDigit text = (c : ℕ) × (rest : Bytes) × (text ≡ c ∷ rest) × (48 ≤ c)

format_digits-HasDigit :
    (fuel n : ℕ) (text : Bytes) → 0 < fuel → HasDigit (format_digits fuel n text)
unfolding format_digits
format_digits-HasDigit zero n text h = absurd (omega arith)
format_digits-HasDigit (suc zero) n text h = elim (Bool-cases (n / 10 == 0)) [
  | inl e ↦ rw (e, format_digits) (48 + n % 10, text, refl, omega arith)
  | inr e ↦ rw (e, format_digits) (48 + n % 10, text, refl, omega arith)
]
format_digits-HasDigit (suc (suc fuel)) n text h = elim (Bool-cases (n / 10 == 0)) [
  | inl e ↦ rw (e, format_digits) (48 + n % 10, text, refl, omega arith)
  | inr e ↦
      rw (e, format_digits)
        (format_digits-HasDigit (suc fuel) (n / 10) ((48 + n % 10) ∷ text) (omega arith))
]

pub parse-format_uint : (n : ℕ) → n < 2 ^ 64 → parse_uint (format_uint n) ≡ ok n
unfolding format_uint parse_uint parse_digits
parse-format_uint n h =
    let (c, rest, e, d) = format_digits-HasDigit 20 n [] (omega arith) in
    let parsed = parse-format_digits 20 n [] (omega arith) h in rw e (rw e at parsed)

format_uint-HasDigit : (n : ℕ) → HasDigit (format_uint n)
unfolding format_uint
format_uint-HasDigit n = format_digits-HasDigit 20 n [] (omega arith)

not_sign : (c : ℕ) → 48 ≤ c → ((c == b'-') ≡ false) × ((c == b'+') ≡ false)
not_sign c h = (ground arith, ground arith)

pub parse-format_int : (z : ℤ) → IsInt64 z → parse_int (format_int z) ≡ ok z
unfolding parse_int format_int negative
parse-format_int (pos n) h =
    let (c, rest, e, d) = format_uint-HasDigit n in
    let (no_minus, no_plus) = not_sign c d in
    let parsed = rw e at (parse-format_uint n (omega arith)) in
    let small : ltb n (2 ^ 63) ≡ true = ground arith in
    rw e (rw (no_minus, no_plus, parsed, small) refl)
parse-format_int (negsuc n) h =
    let parsed = parse-format_uint (n + 1) (omega arith) in
    let small : ltb n (2 ^ 63) ≡ true = ground arith in
    let shifted : n + 1 ≡ suc n = omega arith in rw (parsed, shifted) (rw small refl)

negative-IsInt64 : (n : ℕ) {z : ℤ} → negative n ≡ ok z → IsInt64 z
unfolding negative
negative-IsInt64 zero {z} e = let is_zero : pos 0 ≡ z = cc e in subst IsInt64 is_zero (omega arith)
negative-IsInt64 (suc n) e = elim (Bool-cases (ltb n (2 ^ 63))) [
  | inl f ↦
      let is_negsuc : negsuc n ≡ _ = cc (rw f at e) in subst IsInt64 is_negsuc (ltb→lt n (2 ^ 63) f)
  | inr f ↦ absurd (cc (rw f at e))
]

small-IsInt64 :
    (n : ℕ) {z : ℤ}
    → ◌≡◌ {A = Result Bytes ℤ} (if ltb n (2 ^ 63) then ok (pos n) else err []) (ok z)
    → IsInt64 z
small-IsInt64 n e = elim (Bool-cases (ltb n (2 ^ 63))) [
  | inl f ↦ let is_pos : pos n ≡ _ = cc (rw f at e) in subst IsInt64 is_pos (ltb→lt n (2 ^ 63) f)
  | inr f ↦ absurd (cc (rw f at e))
]

pub parse_int-IsInt64 : (text : Bytes) {z : ℤ} → parse_int text ≡ ok z → IsInt64 z
unfolding parse_int
parse_int-IsInt64 [] e = absurd cc
parse_int-IsInt64 (c ∷ text) e = elim (Bool-cases (c == b'-')) [
  | inl f ↦ after_step (parse_uint text) (rw f at e) (λ n read done. negative-IsInt64 n done)
  | inr f ↦
      after_step (if c == b'+' then parse_uint text else parse_uint (c ∷ text)) (rw f at e)
        (λ n read done. small-IsInt64 n done)
]
