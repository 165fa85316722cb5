-- ===== src/GlobalState/Encoding.antt =====
-- What the keys of the global state use of code outside the repository: `lib.EncodeUint64` (eight
-- bytes, most significant first), `lib.UintToBuf` (a varint), `strings.ToLower`, and the phone
-- number library's `Parse` followed by `Format` in E.164.
use deso_backend.Base.{ℕ, ◌^◌, ◌<◌, ◌≡◌, Bytes, Result, length}

pub record Encoding : Type 0 where
  pub encode_uint64 : ℕ → Bytes
  pub encode_uint64-length : (n : ℕ) → length (encode_uint64 n) ≡ 8
  pub encode_uint64-injective :
      (n m : ℕ) → n < 2 ^ 64 → m < 2 ^ 64 → encode_uint64 n ≡ encode_uint64 m → n ≡ m
  pub uint_to_buf : ℕ → Bytes
  pub uint_to_buf-injective :
      (n m : ℕ) → n < 2 ^ 64 → m < 2 ^ 64 → uint_to_buf n ≡ uint_to_buf m → n ≡ m
  pub to_lower : Bytes → Bytes
  pub format_e164 : Bytes → Result Bytes Bytes
