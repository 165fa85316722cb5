-- ===== src/NftDrop.antt =====
-- NFT drops (routes/admin_nft.go): the entries that the global state keeps under their numbers, and
-- `AdminUpdateNFTDrop`, which makes a new drop or edits one of the last two.
pub mod Book
pub mod Decision
pub mod Storage
pub mod Preserved
pub mod History
pub mod NewDrop
pub mod Tests
use deso_backend.Base.{
  ℕ, ◌+◌, ◌-◌, ◌%◌, ◌^◌, ℤ, pos, negsuc, Bool, true, false, not, ◌&&◌, ◌||◌, List, [], ◌∷◌, ◌++◌,
  Bytes, bytes_eq, Option, none, some, Result, ok, err, panic, ◌>>=◌, ◌>>◌, fail_if, or_fail, ltb,
  leb, ◌==◌, if◌then◌else◌, length,
}
use deso_backend.GlobalState.Encoding.{Encoding}
use deso_backend.GlobalState.Prefix.{Prefix, prefix_byte}
use deso_backend.GlobalState.Keys.Content.{key_for_nft_drop_entry}
use deso_backend.GlobalState.Store.Interface.{Badger, Codec, Json, Network, SeekRequest}
use deso_backend.GlobalState.Store.Client.{Error, GlobalState, State, put, get, seek}

pub record DropEntry : Type 0 where
  pub is_active : Bool
  pub drop_number : ℕ
  pub drop_tstamp_nanos : ℕ
  pub nft_hashes : List Bytes

-- `&NFTDropEntry{}`
abbrev pub no_drop : DropEntry
no_drop = record { is_active = false; drop_number = 0; drop_tstamp_nanos = 0; nft_hashes = [] }

-- AdminUpdateNFTDropRequest
pub record UpdateRequest : Type 0 where
  pub drop_number : ℤ
  pub drop_tstamp_nanos : ℤ
  pub is_active : Bool
  pub nft_hash_hex_to_add : Bytes
  pub nft_hash_hex_to_remove : Bytes

pub data DropError : Type 0 where
  bad_body number_not_positive tstamp_negative add_and_remove : DropError
  too_many_entries not_decoded : DropError
  drop_is_pending tstamp_in_past tstamp_before_previous past_drop tstamp_not_in_future : DropError
  no_view bad_post_hash not_an_nft : DropError
  store_failed : Error → DropError

-- `gob` for an entry, `hex.DecodeString`, and `lib.HashSizeBytes`
pub record DropCodec : Type 0 where
  pub gob : Codec DropEntry
  pub hex_decode : Bytes → Result Bytes Bytes
  pub hash_size_bytes : ℕ

-- whether a post is an NFT, in a view; `none` is a post that is not there
abbrev pub Posts : Type 0
Posts = Bytes → Option Bool

-- the seek of `GetLatestNFTDropEntry`
abbrev pub drop_seek : SeekRequest
drop_seek = record {
  start_prefix = prefix_byte Prefix.nft_drop_number_to_nft_drop_entry ∷ [];
  valid_for_prefix = prefix_byte Prefix.nft_drop_number_to_nft_drop_entry ∷ [];
  max_key_len = 9;
  num_to_fetch = 1;
  reverse = true;
  fetch_values = true;
}

-- the checks before a new drop is made
unfoldable pub new_drop_entry : ℕ → DropEntry → ℕ → Result DropError DropEntry
new_drop_entry now latest tstamp = do
  fail_if (ltb now latest.drop_tstamp_nanos) drop_is_pending
  fail_if (ltb tstamp now) tstamp_in_past
  fail_if (ltb tstamp latest.drop_tstamp_nanos) tstamp_before_previous
  ok (record no_drop {
    drop_number = (latest.drop_number + 1) % 2 ^ 64;
    drop_tstamp_nanos = tstamp;
  })

-- the current drop and, while one is pending, the drop before it
unfoldable pub can_update_drop : ℕ → DropEntry → ℕ → Bool
can_update_drop now latest number =
    let latest_drop_is_pending = ltb now latest.drop_tstamp_nanos in
    (latest_drop_is_pending && leb ((latest.drop_number + 2 ^ 64 - 1) % 2 ^ 64) number)
    || (not latest_drop_is_pending && (number == latest.drop_number))

unfoldable pub set_drop_tstamp : ℕ → DropEntry → ℕ → ℕ → DropEntry → Result DropError DropEntry
set_drop_tstamp now latest number tstamp entry =
    if ltb now tstamp && (number == latest.drop_number)
    then ok (record entry { drop_tstamp_nanos = tstamp })
    else if not (tstamp == entry.drop_tstamp_nanos)
    then err tstamp_not_in_future
    else ok entry

-- the loop that removes a hash: the first that is equal
unfoldable pub remove_hash : Bytes → List Bytes → List Bytes
remove_hash hash [] = []
remove_hash hash (h ∷ hashes) =
    let rest = remove_hash hash hashes in if bytes_eq h hash then hashes else h ∷ rest

module _ (dc : DropCodec) where
  -- routes/post.go
  unfoldable pub get_post_hash_from_post_hash_hex : Bytes → Result DropError Bytes
  get_post_hash_from_post_hash_hex hex = do
    fail_if (length hex == 0) bad_post_hash
    bytes ← or_fail (dc.hex_decode hex) (λ e. bad_post_hash)
    fail_if (not (length bytes == dc.hash_size_bytes)) bad_post_hash
    ok bytes

  -- `postEntry.IsNFT` panics on a post that is not there
  unfoldable pub is_nft : Posts → Bytes → Result DropError Bool
  is_nft posts hash = elim (posts hash) [ none ↦ panic | some nft ↦ ok nft ]

  unfoldable pub add_nft_hash : Posts → Bytes → DropEntry → Result DropError DropEntry
  add_nft_hash posts hex entry = if length hex == 0 then ok entry else do
    post_hash ← get_post_hash_from_post_hash_hex hex
    nft ← is_nft posts post_hash
    fail_if (not nft) not_an_nft
    ok (record entry { nft_hashes = entry.nft_hashes ++ (post_hash ∷ []) })

  unfoldable pub remove_nft_hash : Bytes → DropEntry → Result DropError DropEntry
  remove_nft_hash hex entry = if length hex == 0 then ok entry else do
    post_hash ← get_post_hash_from_post_hash_hex hex
    ok (record entry { nft_hashes = remove_hash post_hash entry.nft_hashes })

  -- the edit of an entry that is there
  unfoldable pub updated_drop_entry :
      ℕ
      → DropEntry
      → UpdateRequest
      → ℕ
      → ℕ
      → Result Bytes Posts
      → DropEntry
      → Result DropError DropEntry
  updated_drop_entry now latest r number tstamp view entry = do
    fail_if (not (can_update_drop now latest number)) past_drop
    dated ← set_drop_tstamp now latest number tstamp (record entry { is_active = r.is_active })
    posts ← or_fail view (λ e. no_view)
    added ← add_nft_hash posts r.nft_hash_hex_to_add dated
    remove_nft_hash r.nft_hash_hex_to_remove added

  unfoldable pub decode_entry : Bytes → Result DropError DropEntry
  decode_entry text = or_fail (dc.gob.unmarshal text) (λ e. not_decoded)

  -- the value of a seek for one entry
  unfoldable pub latest_of : List Bytes → Result DropError DropEntry
  latest_of [] = ok no_drop
  latest_of (text ∷ []) = decode_entry text
  latest_of (text ∷ other ∷ texts) = err too_many_entries

  -- the error of the encoder is not looked at
  unfoldable pub encode_entry : DropEntry → Result DropError Bytes
  encode_entry entry = elim (dc.gob.marshal entry) [
    | ok text ↦ ok text
    | err e ↦ ok []
    | panic ↦ panic
  ]

  unfoldable pub entry_with_text : Result DropError DropEntry → Result DropError (DropEntry × Bytes)
  entry_with_text entry = do d ← entry; text ← encode_entry d; ok (d, text)

  module _ (en : Encoding) (b : Badger) (j : Json) (n : Network) (gs : GlobalState) where
    unfoldable pub get_latest_nft_drop_entry :
        State b j n → Result DropError DropEntry × State b j n
    get_latest_nft_drop_entry s =
        let (found, s') = seek b j n gs drop_seek s in
        (or_fail found store_failed >>= λ (keys, vals). latest_of vals, s')

    -- a missing entry is decoded from no bytes
    unfoldable pub get_nft_drop_entry : ℕ → State b j n → Result DropError DropEntry × State b j n
    get_nft_drop_entry number s =
        let (found, s') = get b j n gs (key_for_nft_drop_entry en number) s in
        (
          or_fail found store_failed >>= λ val.
              decode_entry (elim val [ none ↦ [] | some text ↦ text ]),
          s',
        )

    -- the entry is stored under the number of the request
    unfoldable pub store_drop_entry :
        ℕ → Result DropError DropEntry → State b j n → Result DropError DropEntry × State b j n
    store_drop_entry number entry s = elim (entry_with_text entry) [
      | ok (d, text) ↦
          let (written, s') = put b j n gs (key_for_nft_drop_entry en number) text s in
          (or_fail written store_failed >>= λ u. ok d, s')
      | err e ↦ (err e, s)
      | panic ↦ (panic, s)
    ]

    -- the part below the checks of the request, up to the response
    unfoldable pub apply_update :
        ℕ
        → Result Bytes Posts
        → UpdateRequest
        → ℕ
        → ℕ
        → State b j n
        → Result DropError DropEntry × State b j n
    apply_update now view r number tstamp s =
        let (latest, s1) = get_latest_nft_drop_entry s in
        elim latest [
          | err e ↦ (err e, s1)
          | panic ↦ (panic, s1)
          | ok latest_entry ↦
              let (found, s2) = get_nft_drop_entry number s1 in
              if ltb latest_entry.drop_number number
              then store_drop_entry number (new_drop_entry now latest_entry tstamp) s1
              else if number == latest_entry.drop_number
              then store_drop_entry number
                  (updated_drop_entry now latest_entry r number tstamp view latest_entry) s1
              else store_drop_entry number
                  (found >>= updated_drop_entry now latest_entry r number tstamp view) s2
        ]

    unfoldable pub admin_update_nft_drop :
        ℕ
        → Result Bytes Posts
        → Result Bytes UpdateRequest
        → State b j n
        → Result DropError DropEntry × State b j n
    admin_update_nft_drop now view request s = elim (or_fail request (λ e. bad_body)) [
      | err e ↦ (err e, s)
      | panic ↦ (panic, s)
      | ok r ↦ elim r.drop_number [
        | negsuc k ↦ (err number_not_positive, s)
        | pos number ↦ elim r.drop_tstamp_nanos [
          | negsuc k ↦ (err (if number == 0 then number_not_positive else tstamp_negative), s)
          | pos tstamp ↦
              if number == 0
              then (err number_not_positive, s)
              else if not (length r.nft_hash_hex_to_add == 0)
                  && not (length r.nft_hash_hex_to_remove == 0)
              then (err add_and_remove, s)
              else apply_update now view r number tstamp s
        ]
      ]
    ]
