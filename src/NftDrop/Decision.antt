-- ===== src/NftDrop/Decision.antt =====
-- The entries that the checks of `AdminUpdateNFTDrop` let through (routes/admin_nft.go).
use deso_backend.Base.{ℕ, ◌+◌, ◌%◌, ◌^◌, ◌≤◌, ◌<◌, ◌≡◌, ◌⊎◌, Bytes, Result, ok, arith}
use deso_backend.NftDrop.{
  DropEntry, UpdateRequest, DropCodec, Posts, new_drop_entry, set_drop_tstamp, add_nft_hash,
  remove_nft_hash, updated_drop_entry,
}

-- A new drop comes after the latest drop in number and in time, and the latest is not pending.
pub new_drop_entry_lem :
    (now : ℕ) (latest : DropEntry) (tstamp : ℕ) {d : DropEntry}
    → new_drop_entry now latest tstamp ≡ ok d
    → (d.drop_number ≡ (latest.drop_number + 1) % 2 ^ 64)
      × (d.drop_tstamp_nanos ≡ tstamp)
      × (latest.drop_tstamp_nanos ≤ now)
      × (latest.drop_tstamp_nanos ≤ tstamp)
unfolding new_drop_entry
new_drop_entry_lem now latest tstamp h = ground arith

set_drop_tstamp_lem :
    (now : ℕ) (latest : DropEntry) (number tstamp : ℕ) (entry : DropEntry) {d : DropEntry}
    → set_drop_tstamp now latest number tstamp entry ≡ ok d
    → (d.drop_number ≡ entry.drop_number)
      × ((d.drop_tstamp_nanos ≡ entry.drop_tstamp_nanos)
          ⊎ ((number ≡ latest.drop_number) × (now < d.drop_tstamp_nanos)))
unfolding set_drop_tstamp
set_drop_tstamp_lem now latest number tstamp entry h = ground arith

module _ (dc : DropCodec) where
  add_nft_hash_lem :
      (posts : Posts) (hex : Bytes) (entry : DropEntry) {d : DropEntry}
      → add_nft_hash dc posts hex entry ≡ ok d
      → (d.drop_number ≡ entry.drop_number) × (d.drop_tstamp_nanos ≡ entry.drop_tstamp_nanos)
  unfolding add_nft_hash
  add_nft_hash_lem posts hex entry h = ground arith

  remove_nft_hash_lem :
      (hex : Bytes) (entry : DropEntry) {d : DropEntry}
      → remove_nft_hash dc hex entry ≡ ok d
      → (d.drop_number ≡ entry.drop_number) × (d.drop_tstamp_nanos ≡ entry.drop_tstamp_nanos)
  unfolding remove_nft_hash
  remove_nft_hash_lem hex entry h = ground arith

  -- An edit keeps the number; it keeps the time, or is of the latest drop and moves it into the
  -- future.
  pub updated_drop_entry_lem :
      (now : ℕ) (latest : DropEntry) (r : UpdateRequest) (number tstamp : ℕ)
      (view : Result Bytes Posts) (entry : DropEntry) {d : DropEntry}
      → updated_drop_entry dc now latest r number tstamp view entry ≡ ok d
      → (d.drop_number ≡ entry.drop_number)
        × ((d.drop_tstamp_nanos ≡ entry.drop_tstamp_nanos)
            ⊎ ((number ≡ latest.drop_number) × (now < d.drop_tstamp_nanos)))
  unfolding updated_drop_entry
  updated_drop_entry_lem now latest r number tstamp view entry h =
      grind (arith, set_drop_tstamp_lem, add_nft_hash_lem, remove_nft_hash_lem)
