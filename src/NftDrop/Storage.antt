-- ===== src/NftDrop/Storage.antt =====
-- The entries of NFT drops in a local database (routes/admin_nft.go).
use deso_backend.Base.{
  ℕ, ◌^◌, ◌≤◌, ◌<◌, ◌≡◌, ◌≢◌, ◌⊎◌, inl, inr, refl, ap, true, false, List, [], ◌∷◌, Bytes, bytes_eq,
  bytes_eq_refl, bytes_eq→eq, Option, none, some, Result, Result-cases, ok, err, panic, ◌>>=◌,
  or_fail, arith, Bool-cases, ltb, if◌then◌else◌,
}
use deso_backend.GlobalState.Encoding.{Encoding}
use deso_backend.GlobalState.Keys.Content.{key_for_nft_drop_entry}
use deso_backend.GlobalState.Store.Interface.{Badger, Json, Network}
use deso_backend.GlobalState.Store.Client.{
  GlobalState, Error, State, has_remote, put, get, get_local, seek, seek_local,
}
use deso_backend.GlobalState.Store.Local.{get-put, put_failed, get_is_local}
use deso_backend.NftDrop.{
  DropEntry, DropError, store_failed, no_drop, DropCodec, drop_seek, decode_entry, encode_entry,
  latest_of, entry_with_text, get_latest_nft_drop_entry, get_nft_drop_entry, store_drop_entry,
}
use deso_backend.NftDrop.Book.{Stored}

-- What `Seek` finds for the latest drop: the entry with the greatest number. Keys sort as numbers.
pub data Latest (en : Encoding) (b : Badger) (j : Json) (n : Network) (db : b.Db) : Type 0 where
  none_held :
      (keys : List Bytes)
      → seek_local b j n (drop_seek) db ≡ ok (keys, [])
      → ((m : ℕ) → m < 2 ^ 64 → b.get_item db (key_for_nft_drop_entry en m) ≡ none)
      → Latest en b j n db
  last_held :
      (keys : List Bytes) (k : ℕ) (text : Bytes)
      → seek_local b j n (drop_seek) db ≡ ok (keys, text ∷ [])
      → k < 2 ^ 64
      → b.get_item db (key_for_nft_drop_entry en k) ≡ some (ok text)
      → ((m : ℕ) → k < m → m < 2 ^ 64 → b.get_item db (key_for_nft_drop_entry en m) ≡ none)
      → Latest en b j n db

module _ (dc : DropCodec) (en : Encoding) (b : Badger) (j : Json) (n : Network) (gs : GlobalState)
    (local : has_remote gs ≡ false)
    (encodes : (d : DropEntry) → (text : Bytes) × (dc.gob.marshal d ≡ ok text))
    (no_bytes : (d : DropEntry) → dc.gob.unmarshal [] ≢ ok d) where
  -- an entry is kept under a number
  abbrev pub Held : b.Db → ℕ → DropEntry → Type 0
  Held db m d =
      (m < 2 ^ 64)
      × (text : Bytes) × (get_local b j n (key_for_nft_drop_entry en m) db ≡ ok (some text))
      × (dc.gob.unmarshal text ≡ ok d)

  -- one entry is kept under a number
  pub Held-functional : (db : b.Db) (m : ℕ) (d e : DropEntry) → Held db m d → Held db m e → d ≡ e
  Held-functional db m d e (bound, text, found, read) (bound2, text2, found2, read2) =
      grind (arith, found, found2, read, read2)

  key-injective :
      (m k : ℕ)
      → m < 2 ^ 64
      → k < 2 ^ 64
      → bytes_eq (key_for_nft_drop_entry en k) (key_for_nft_drop_entry en m) ≡ true
      → m ≡ k
  unfolding key_for_nft_drop_entry
  key-injective m k hm hk e = en.encode_uint64-injective m k hm hk (cc (bytes_eq→eq _ _ e))

  stored_same :
      {d d2 : DropEntry} {text text2 : Bytes}
      → dc.gob.marshal d ≡ ok text
      → text ≡ text2
      → dc.gob.unmarshal text2 ≡ ok d2
      → d2 ≡ d
  stored_same {d} written same read = grind (arith, dc.gob.unmarshal-marshal d written, read, same)

  put_stores :
      (number : ℕ) (d : DropEntry) (text : Bytes) (s : State b j n)
      → number < 2 ^ 64
      → dc.gob.marshal d ≡ ok text
      → (put b j n gs (key_for_nft_drop_entry en number) text s).0 ≡ ok tt
      → Stored
          (Held s.0)
          number
          d
          (Held (put b j n gs (key_for_nft_drop_entry en number) text s).1.0)
  put_stores number d text s bound e written m d2 (hm, text2, found, read) =
      let key = key_for_nft_drop_entry en number in
      let other = key_for_nft_drop_entry en m in
      let after = (put b j n gs key text s).1 in
      let now_there : (if bytes_eq key other then ok (some text) else get_local b j n other s.0)
          ≡ ok (some text2) =
        ground (
          arith,
          get-put b j n gs local key text other s written,
          get_is_local b j n gs local other after,
          get_is_local b j n gs local other s,
        ) in
      elim (Bool-cases (bytes_eq key other)) [
        | inl same ↦ inl (
          key-injective m number hm bound same,
          stored_same e (ground (arith, same, now_there)) read,
        )
        | inr differ ↦ inr (
          λ (is : m ≡ number).
              cc (
                differ,
                bytes_eq_refl key,
                ap (λ x. bytes_eq key (key_for_nft_drop_entry en x)) is,
              ),
          (hm, text2, ground (arith, differ, now_there), read),
        )
      ]

  -- a store of an entry changes nothing, or stores the entry that the checks let through
  pub store_drop_entry_lem :
      (number : ℕ) (entry : Result DropError DropEntry) (s : State b j n)
      → number < 2 ^ 64
      → ((store_drop_entry dc en b j n gs number entry s).1 ≡ s)
        ⊎ (d : DropEntry) × (entry ≡ ok d)
          × Stored (Held s.0) number d (Held (store_drop_entry dc en b j n gs number entry s).1.0)
  unfolding store_drop_entry entry_with_text encode_entry
  store_drop_entry_lem number (err e) s bound = inl refl
  store_drop_entry_lem number panic s bound = inl refl
  store_drop_entry_lem number (ok d) s bound =
      let (text, written) = encodes d in
      let key = key_for_nft_drop_entry en number in
      elim (Result-cases (put b j n gs key text s).0) [
        | inl (u, e) ↦
            rw (store_drop_entry, written)
              (inr (d, refl, put_stores number d text s bound written e))
        | inr (inl (x, e)) ↦
            rw (store_drop_entry, written)
              (inl (put_failed b j n gs local key text s (λ h. cc (h, e))))
        | inr (inr e) ↦
            rw (store_drop_entry, written)
              (inl (put_failed b j n gs local key text s (λ h. cc (h, e))))
      ]

  read_entry :
      (found : Result Error (Option Bytes)) {d : DropEntry}
      → (or_fail found store_failed >>= λ val.
          decode_entry dc (elim val [ none ↦ [] | some text ↦ text ]))
        ≡ ok d
      → (text : Bytes) × (found ≡ ok (some text)) × (dc.gob.unmarshal text ≡ ok d)
  unfolding decode_entry
  read_entry (ok (some text)) h = (text, refl, ground arith)
  read_entry (ok none) {d} h = absurd (no_bytes d (ground arith))
  read_entry (err e) h = ground arith
  read_entry panic h = ground arith

  -- an entry that is read is held
  pub get_nft_drop_entry_lem :
      (number : ℕ) (s : State b j n)
      → number < 2 ^ 64
      → ((get_nft_drop_entry dc en b j n gs number s).1 ≡ s)
        × ((d : DropEntry)
            → (get_nft_drop_entry dc en b j n gs number s).0 ≡ ok d
            → Held s.0 number d)
  unfolding get_nft_drop_entry
  get_nft_drop_entry_lem number s bound =
      let key = key_for_nft_drop_entry en number in
      rw (get_is_local b j n gs local key s) (
        refl,
        λ d h.
            let (text, found, read) = read_entry (get_local b j n key s.0) h in
            (bound, text, found, read),
      )

  decoded :
      (text : Bytes) {d : DropEntry} → decode_entry dc text ≡ ok d → dc.gob.unmarshal text ≡ ok d
  unfolding decode_entry
  decoded text h = ground arith

  seek_is_local :
      (s : State b j n) → seek b j n gs drop_seek s ≡ (seek_local b j n drop_seek s.0, s)
  unfolding seek
  seek_is_local s = rw (seek, local) refl

  pub not-Held :
      (db : b.Db) (m : ℕ) (e : DropEntry)
      → b.get_item db (key_for_nft_drop_entry en m) ≡ none
      → ¬ Held db m e
  unfolding get_local
  not-Held db m e missing (bound, text, found, read) = ground (arith, missing, found)

  found_local :
      (db : b.Db) (key text : Bytes)
      → b.get_item db key ≡ some (ok text)
      → get_local b j n key db ≡ ok (some text)
  unfolding get_local
  found_local db key text h = ground arith

  -- the latest entry is held and no other comes after it, or nothing is held
  pub get_latest_nft_drop_entry_lem :
      (s : State b j n)
      → Latest en b j n s.0
      → ((get_latest_nft_drop_entry dc en b j n gs s).1 ≡ s)
        × ((d : DropEntry)
            → (get_latest_nft_drop_entry dc en b j n gs s).0 ≡ ok d
            → ((d ≡ no_drop) × ((m : ℕ) (e : DropEntry) → ¬ Held s.0 m e))
              ⊎ (k : ℕ) × Held s.0 k d × ((m : ℕ) (e : DropEntry) → Held s.0 m e → m ≤ k))
  unfolding get_latest_nft_drop_entry latest_of
  get_latest_nft_drop_entry_lem s (none_held keys found none_there) =
      rw (seek_is_local s, found)
        (refl, λ d h. inl (ground arith, λ m e held. not-Held s.0 m e (none_there m held.0) held))
  get_latest_nft_drop_entry_lem s (last_held keys k text found bound there none_after) =
      rw (seek_is_local s, found)
        (
          refl,
          λ d h. inr (
            k,
            (bound, text, found_local s.0 (key_for_nft_drop_entry en k) text there, decoded text h),
            λ m e held. elim (Bool-cases (ltb k m)) [
              | inl before ↦
                  absurd (not-Held s.0 m e (none_after m (ground (arith, before)) held.0) held)
              | inr not_before ↦ ground (arith, not_before)
            ],
          ),
        )

  store_put :
      (number : ℕ) (d : DropEntry) (s : State b j n) {text : Bytes}
      → dc.gob.marshal d ≡ ok text
      → store_drop_entry dc en b j n gs number (ok d) s ≡ (
        or_fail (put b j n gs (key_for_nft_drop_entry en number) text s).0 store_failed >>= λ u.
            ok d,
        (put b j n gs (key_for_nft_drop_entry en number) text s).1,
      )
  unfolding store_drop_entry entry_with_text encode_entry
  store_put number d s written = rw (store_drop_entry, written) refl

  read_back :
      (found : Result Error (Option Bytes)) {text : Bytes} {d : DropEntry}
      → found ≡ ok (some text)
      → dc.gob.unmarshal text ≡ ok d
      → (or_fail found store_failed >>= λ val.
          decode_entry dc (elim val [ none ↦ [] | some text ↦ text ]))
        ≡ ok d
  unfolding decode_entry
  read_back found e1 e2 = rw e1 (ground (arith, e2))

  -- an entry that is stored is read again under the number that it was stored under
  pub get_nft_drop_entry-store_drop_entry :
      (number : ℕ) (entry : Result DropError DropEntry) (s : State b j n) {d : DropEntry}
      → (store_drop_entry dc en b j n gs number entry s).0 ≡ ok d
      → (entry ≡ ok d)
        × ((get_nft_drop_entry dc en b j n gs number
              (store_drop_entry dc en b j n gs number entry s).1).0
            ≡ ok d)
  unfolding store_drop_entry entry_with_text get_nft_drop_entry
  get_nft_drop_entry-store_drop_entry number (err e) s h = absurd cc
  get_nft_drop_entry-store_drop_entry number panic s h = absurd cc
  get_nft_drop_entry-store_drop_entry number (ok d0) s {d} h =
      let (text, written) = encodes d0 in
      let key = key_for_nft_drop_entry en number in
      let after = (put b j n gs key text s).1 in
      elim (Result-cases (put b j n gs key text s).0) [
        | inl (u, e) ↦
            let same : d0 ≡ d = ground (arith, h, e, store_put number d0 s written) in
            let there : (get b j n gs key after).0 ≡ ok (some text) =
              ground (arith, get-put b j n gs local key text key s e, bytes_eq_refl key) in
            (
              ap ok same,
              rw (store_put number d0 s written) (
                  read_back (get b j n gs key after).0 there
                    (ground (arith, dc.gob.unmarshal-marshal d0 written, same))),
            )
        | inr (inl (x, e)) ↦ ground (arith, h, e, store_put number d0 s written)
        | inr (inr e) ↦ ground (arith, h, e, store_put number d0 s written)
      ]
