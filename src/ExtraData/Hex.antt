-- ===== src/ExtraData/Hex.antt =====
-- Go's encoding/hex.
use deso_backend.Base.{
  ℕ, ◌+◌, ◌-◌, ◌*◌, ◌/◌, ◌%◌, ◌<◌, ◌≡◌, refl, ap, ◌&&◌, [], ◌∷◌, Bytes, All, Result, ok, err, ◌>>=◌,
  after_step, arith, ltb, leb, if◌then◌else◌, subst,
}

abbrev pub hex_digit : ℕ → ℕ
hex_digit x = if ltb x 10 then 48 + x else 87 + x

-- digits of either case are read
unfoldable pub hex_value : ℕ → Result Bytes ℕ
hex_value c =
    if leb 48 c && leb c 57
    then ok (c - 48)
    else if leb 97 c && leb c 102
    then ok (c - 87)
    else if leb 65 c && leb c 70
    then ok (c - 55)
    else err []

-- `hex.DecodeString`
unfoldable pub hex_decode : Bytes → Result Bytes Bytes
hex_decode [] = ok []
hex_decode (c ∷ []) = err []
hex_decode (c ∷ d ∷ text) =
    hex_value c >>= λ x. hex_value d >>= λ y. hex_decode text >>= λ rest. ok ((x * 16 + y) ∷ rest)

-- `hex.EncodeToString`
unfoldable pub hex_encode : Bytes → Bytes
hex_encode [] = []
hex_encode (x ∷ bytes) = hex_digit (x / 16) ∷ hex_digit (x % 16) ∷ hex_encode bytes

hex_value-bound : (c : ℕ) {x : ℕ} → hex_value c ≡ ok x → x < 16
unfolding hex_value
hex_value-bound c h = ground arith

hex_value-digit : (x : ℕ) → x < 16 → hex_value (hex_digit x) ≡ ok x
unfolding hex_value
hex_value-digit x h = ground arith

pub hex_decode-bound :
    (text : Bytes) {bytes : Bytes} → hex_decode text ≡ ok bytes → All (λ x. x < 256) bytes
unfolding hex_decode
hex_decode-bound [] {bytes} h =
    let same : [] ≡ bytes = cc h in subst (λ (bs : Bytes). All (λ x. x < 256) bs) same tt
hex_decode-bound (c ∷ []) h = absurd cc
hex_decode-bound (c ∷ d ∷ text) {bytes} h = after_step (hex_value c) h λ x hx h1.
    after_step (hex_value d) h1 λ y hy h2. after_step (hex_decode text) h2 λ rest hrest h3.
      let first : x < 16 = hex_value-bound c hx in
      let second : y < 16 = hex_value-bound d hy in
      let same : (x * 16 + y) ∷ rest ≡ bytes = cc h3 in
      subst (λ (bs : Bytes). All (λ x. x < 256) bs) same (omega arith, hex_decode-bound text hrest)

pub decode-hex_encode :
    (bytes : Bytes) → All (λ x. x < 256) bytes → hex_decode (hex_encode bytes) ≡ ok bytes
unfolding hex_decode hex_encode
decode-hex_encode [] h = refl
decode-hex_encode (x ∷ bytes) (hx, hs) =
    rw
      (
        hex_value-digit (x / 16) (omega arith),
        hex_value-digit (x % 16) (omega arith),
        decode-hex_encode bytes hs,
      )
      (ap (λ y. ok (y ∷ bytes)) (omega arith))
