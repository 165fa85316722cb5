-- ===== src/DaoCoin/Book/Coins.antt =====
-- The coins that a request names: DESO, or the coin of a public key in base58
-- (routes/dao_coin_exchange.go).
use deso_backend.Base.{
  ◌≡◌, ◌≢◌, ◌⊎◌, inl, inr, refl, ap, true, false, Bytes, bytes_eq, bytes_eq_refl, bytes_eq→eq,
  Bool-cases, ok, after_step, value_of_or_fail, length, arith,
}
use deso_backend.Core.{Core}
use deso_backend.DaoCoin.Types.{is_deso, deso_coin_identifier_string}
use deso_backend.DaoCoin.Book.{
  bad_request, get_pub_key_bytes_from_base58_check, get_pkid_from_public_key_base58_check,
  requested_coin_pkid,
}

pub is_deso-eq : (coin : Bytes) → is_deso coin ≡ true → coin ≡ deso_coin_identifier_string
unfolding is_deso
is_deso-eq coin h = bytes_eq→eq coin deso_coin_identifier_string h

pub is_deso-ne : (coin : Bytes) → is_deso coin ≡ false → coin ≢ deso_coin_identifier_string
unfolding is_deso
is_deso-ne coin h same = cc (
  h,
  bytes_eq_refl deso_coin_identifier_string,
  ap (λ (x : Bytes). bytes_eq x deso_coin_identifier_string) same,
)

pub deso_is_deso : (coin : Bytes) → coin ≡ deso_coin_identifier_string → is_deso coin ≡ true
unfolding is_deso
deso_is_deso coin same = rw same (bytes_eq_refl deso_coin_identifier_string)

pub other_is_not_deso : (coin : Bytes) → coin ≢ deso_coin_identifier_string → is_deso coin ≡ false
other_is_not_deso coin other = elim (Bool-cases (is_deso coin)) [
  | inl e ↦ absurd (other (is_deso-eq coin e))
  | inr e ↦ e
]

module _ (c : Core) where
  -- the text is a public key in base58
  abbrev pub IsKeyOf : Bytes → Bytes → Type 0
  IsKeyOf text key =
      (c.base58_check_decode text ≡ ok key) × (length key ≡ c.pub_key_bytes_len_compressed)

  pub key-IsKeyOf :
      (text key : Bytes) → get_pub_key_bytes_from_base58_check c text ≡ ok key → IsKeyOf text key
  unfolding get_pub_key_bytes_from_base58_check
  key-IsKeyOf text key h = ground (arith, h)

  pub IsKeyOf-key :
      (text key : Bytes) → IsKeyOf text key → get_pub_key_bytes_from_base58_check c text ≡ ok key
  unfolding get_pub_key_bytes_from_base58_check
  IsKeyOf-key text key (decoded, long) = ground (arith, decoded, long)

  module _ (view : c.View) where
    abbrev pub IsPkidOf : Bytes → Bytes → Type 0
    IsPkidOf text pkid =
        (key : Bytes) × IsKeyOf text key × (pkid ≡ c.get_pkid_for_public_key view key)

    pub pkid-IsPkidOf :
        (text pkid : Bytes)
        → get_pkid_from_public_key_base58_check c view text ≡ ok pkid
        → IsPkidOf text pkid
    unfolding get_pkid_from_public_key_base58_check
    pkid-IsPkidOf text pkid h =
        after_step (get_pub_key_bytes_from_base58_check c text) h
          λ key e h1. (key, key-IsKeyOf text key e, ground (arith, h1))

    pub IsPkidOf-pkid :
        (text pkid : Bytes)
        → IsPkidOf text pkid
        → get_pkid_from_public_key_base58_check c view text ≡ ok pkid
    unfolding get_pkid_from_public_key_base58_check
    IsPkidOf-pkid text pkid (key, is_key, same) = rw (IsKeyOf-key text key is_key, same) refl

    -- DESO has the PKID of zeros, and a coin that of its creator.
    abbrev pub IsCoinPkid : Bytes → Bytes → Type 0
    IsCoinPkid coin pkid =
        ((coin ≡ deso_coin_identifier_string) × (pkid ≡ c.zero_pkid))
        ⊎ ((coin ≢ deso_coin_identifier_string) × IsPkidOf coin pkid)

    pub requested-IsCoinPkid :
        (coin pkid : Bytes) → requested_coin_pkid c view coin ≡ ok pkid → IsCoinPkid coin pkid
    unfolding requested_coin_pkid
    requested-IsCoinPkid coin pkid h = elim (Bool-cases (is_deso coin)) [
      | inl e ↦ inl (is_deso-eq coin e, ground (arith, e, h))
      | inr e ↦ inr (
        is_deso-ne coin e,
        pkid-IsPkidOf coin pkid (
            value_of_or_fail (get_pkid_from_public_key_base58_check c view coin) bad_request
              (rw e at h)),
      )
    ]
