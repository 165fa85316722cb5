-- ===== src/NftDrop/NewDrop.antt =====
-- A new drop in `AdminUpdateNFTDrop` (routes/admin_nft.go): its number, and the key it is stored under.
use deso_backend.Base.{
  ℤ-cases, ℕ, ◌+◌, ◌%◌, ◌^◌, ◌≤◌, ◌<◌, ◌≡◌, ◌≢◌, inl, inr, refl, sym, ◌∙◌, ap, true, false, [],
  Bytes, Result, ok, arith, ltb, pos,
}
use deso_backend.GlobalState.Encoding.{Encoding}
use deso_backend.GlobalState.Store.Interface.{Badger, Json, Network}
use deso_backend.GlobalState.Store.Client.{GlobalState, State, has_remote}
use deso_backend.NftDrop.{
  DropEntry, UpdateRequest, DropError, DropCodec, Posts, new_drop_entry, get_latest_nft_drop_entry,
  get_nft_drop_entry, store_drop_entry, apply_update, admin_update_nft_drop,
}
use deso_backend.NftDrop.Decision.{new_drop_entry_lem}
use deso_backend.NftDrop.Storage.{
  Latest, get_nft_drop_entry-store_drop_entry, get_latest_nft_drop_entry_lem,
}
use deso_backend.NftDrop.Preserved.{pair_eq}

module _ (dc : DropCodec) (en : Encoding) (b : Badger) (j : Json) (n : Network) (gs : GlobalState)
    (local : has_remote gs ≡ false)
    (encodes : (d : DropEntry) → (text : Bytes) × (dc.gob.marshal d ≡ ok text))
    (no_bytes : (d : DropEntry) → dc.gob.unmarshal [] ≢ ok d) where
  apply_update-new :
      (now number tstamp : ℕ) (view : Result Bytes Posts) (r : UpdateRequest) (s : State b j n)
      (latest : DropEntry)
      → get_latest_nft_drop_entry dc en b j n gs s ≡ (ok latest, s)
      → latest.drop_number < number
      → apply_update dc en b j n gs now view r number tstamp s
        ≡ store_drop_entry dc en b j n gs number (new_drop_entry now latest tstamp) s
  unfolding apply_update
  apply_update-new now number tstamp view r s latest e above =
      let over : ltb latest.drop_number number ≡ true = ground arith in
      let same = ap (λ (x : Result DropError DropEntry × State b j n). x.1) e in
      rw (apply_update, e, same, over) refl

  -- a request that is not refused comes to the part below the checks
  asks_update :
      (now number : ℕ) (view : Result Bytes Posts) (r : UpdateRequest) (s : State b j n)
      {d : DropEntry}
      → r.drop_number ≡ pos number
      → (admin_update_nft_drop dc en b j n gs now view (ok r) s).0 ≡ ok d
      → (tstamp : ℕ) × (r.drop_tstamp_nanos ≡ pos tstamp)
        × (admin_update_nft_drop dc en b j n gs now view (ok r) s
            ≡ apply_update dc en b j n gs now view r number tstamp s)
  unfolding admin_update_nft_drop
  asks_update now number view r s e h = elim (ℤ-cases r.drop_tstamp_nanos) [
    | inr (m, f) ↦ ground (arith, e, f, h)
    | inl (tstamp, f) ↦ (tstamp, f, ground (arith, e, f, h))
  ]

  -- On a local database, under the same conditions, a request to AdminUpdateNFTDrop with any number
  -- above the latest one that succeeds makes an entry with the number after the latest one, the
  -- time of the request, no earlier than the latest drop, which is not pending; but GetNFTDropEntry
  -- finds this entry under the number of the request, however far above it is.
  pub admin_update_nft_drop-new :
      (now number : ℕ) (view : Result Bytes Posts) (r : UpdateRequest) (s : State b j n)
      (latest d : DropEntry)
      → Latest en b j n s.0
      → r.drop_number ≡ pos number
      → (get_latest_nft_drop_entry dc en b j n gs s).0 ≡ ok latest
      → latest.drop_number < number
      → (admin_update_nft_drop dc en b j n gs now view (ok r) s).0 ≡ ok d
      → (d.drop_number ≡ (latest.drop_number + 1) % 2 ^ 64)
        × (r.drop_tstamp_nanos ≡ pos d.drop_tstamp_nanos)
        × (latest.drop_tstamp_nanos ≤ now)
        × (latest.drop_tstamp_nanos ≤ d.drop_tstamp_nanos)
        × ((get_nft_drop_entry dc en b j n gs number
              (admin_update_nft_drop dc en b j n gs now view (ok r) s).1).0
            ≡ ok d)
  admin_update_nft_drop-new now number view r s latest d seeks e is_latest above h =
      let (same, found) =
        get_latest_nft_drop_entry_lem dc en b j n gs local encodes no_bytes s seeks in
      let (tstamp, f, to_update) = asks_update now number view r s e h in
      let to_store =
        to_update
        ∙ apply_update-new now number tstamp view r s latest (pair_eq is_latest same) above in
      let (is_new, there) =
        get_nft_drop_entry-store_drop_entry dc en b j n gs local encodes no_bytes number
          (new_drop_entry now latest tstamp) s
          (sym (ap (λ (x : Result DropError DropEntry × State b j n). x.0) to_store) ∙ h) in
      let (numbered, dated, past, after) = new_drop_entry_lem now latest tstamp is_new in
      (numbered, cc (f, dated), past, omega (arith, dated, after), rw to_store there)
