-- ===== src/GlobalState/Keys/Layout.antt =====
-- Keys that are made of several parts (routes/global_state.go).
use deso_backend.Base.{
  ℕ, ◌^◌, ◌<◌, ◌≡◌, refl, sym, ◌∙◌, [], ◌∷◌, ◌++◌, append_assoc, Bytes, arith, length,
}
use deso_backend.GlobalState.Encoding.{Encoding}
use deso_backend.GlobalState.Keys.Content.{
  key_for_tstamp_post_hash, key_for_pkid_referral_hash_referee_pkid,
  seek_key_for_pkid_referral_hash_referee_pkids,
}

-- lists of one length before the rest are equal part by part
append-injective : (a b c d : Bytes) → length a ≡ length b → a ++ c ≡ b ++ d → (a ≡ b) × (c ≡ d)
append-injective [] [] c d h e = (refl, e)
append-injective [] (y ∷ b) c d h e = absurd (omega arith)
append-injective (x ∷ a) [] c d h e = absurd (omega arith)
append-injective (x ∷ a) (y ∷ b) c d h e =
    let (heads, tails) = cons_parts x y (a ++ c) (b ++ d) e in
    let (same, rest) = append-injective a b c d (omega arith) tails in (cc, rest)
  where
    cons_parts : (x y : ℕ) (s t : Bytes) → x ∷ s ≡ y ∷ t → (x ≡ y) × (s ≡ t)
    cons_parts x y s t e = (cc, cc)

cons_tail : {x y : ℕ} {s t : Bytes} → x ∷ s ≡ y ∷ t → s ≡ t
cons_tail e = cc

module _ (en : Encoding) where
  -- With timestamps below 2^64, two whitelisted posts with one key have the same timestamp and the
  -- same hash.
  pub tstamp_post_hash-injective :
      (t u : ℕ) (post_hash other : Bytes)
      → t < 2 ^ 64
      → u < 2 ^ 64
      → key_for_tstamp_post_hash en t post_hash ≡ key_for_tstamp_post_hash en u other
      → (t ≡ u) × (post_hash ≡ other)
  unfolding key_for_tstamp_post_hash
  tstamp_post_hash-injective t u post_hash other ht hu e =
      let (times, hashes) =
        append-injective (en.encode_uint64 t) (en.encode_uint64 u) post_hash other
          (en.encode_uint64-length t ∙ sym (en.encode_uint64-length u)) (cons_tail e) in
      (en.encode_uint64-injective t u ht hu times, hashes)

  -- Where PKIDs have one length and referral hashes have one length, a key that begins with the
  -- seek key of a PKID and a referral hash is that of a user whom that PKID referred with that
  -- hash, and what follows the seek key is the user's PKID.
  pub referee_seek_selects :
      (pkid other hash code referee rest : Bytes)
      → length pkid ≡ length other
      → length hash ≡ length code
      → key_for_pkid_referral_hash_referee_pkid en other code referee
        ≡ seek_key_for_pkid_referral_hash_referee_pkids en pkid hash ++ rest
      → (other ≡ pkid) × (code ≡ hash) × (referee ≡ rest)
  unfolding key_for_pkid_referral_hash_referee_pkid seek_key_for_pkid_referral_hash_referee_pkids
  referee_seek_selects pkid other hash code referee rest hp hh e =
      let (firsts, lasts) =
        append-injective other pkid (code ++ referee) (hash ++ rest) (sym hp)
          (cons_tail e ∙ append_assoc pkid hash rest) in
      let (codes_same, referees) = append-injective code hash referee rest (sym hh) lasts in
      (firsts, codes_same, referees)
