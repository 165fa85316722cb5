-- ===== src/NftDrop/Tests.antt =====
-- NFT drops on a database that has room for one of them (routes/admin_nft.go).
use deso_backend.Base.{
  ℕ, ◌+◌, ◌^◌, ◌<◌, ◌≤◌, ◌≡◌, ◌≢◌, refl, ap, pos, true, false, inl, inr, List, [], ◌∷◌, Bytes,
  codes, bytes_eq, bytes_eq_refl, bytes_eq→eq, Option, none, some, Result, ok, err, arith,
  Bool-cases, if◌then◌else◌, ◌==◌,
}
use deso_backend.GlobalState.Prefix.{prefix_byte}
use deso_backend.GlobalState.Keys.Content.{key_for_nft_drop_entry}
use deso_backend.GlobalState.Store.Interface.{Badger}
use deso_backend.GlobalState.Store.Client.{
  GlobalState, State, has_remote, seek_local, get, put, seek, update, get_local,
}
use deso_backend.GlobalState.Tests.Model.{
  encoding, json, no_network, big_endian, big_endian-injective,
}
use deso_backend.GlobalState.Tests.Texts.{write_texts, read_texts, read_written_texts}
use deso_backend.NftDrop.{
  DropError, apply_update, store_drop_entry, entry_with_text, encode_entry, decode_entry, latest_of,
  new_drop_entry, DropEntry, no_drop, DropCodec, UpdateRequest, Posts, get_latest_nft_drop_entry,
  get_nft_drop_entry, admin_update_nft_drop,
}
use deso_backend.NftDrop.Book.{IsDropBook}
use deso_backend.NftDrop.Storage.{Latest, none_held, last_held}
use deso_backend.NftDrop.Preserved.{DropsOf, AsksNext}
use deso_backend.NftDrop.History.{
  DropHistory, no_drops, time_passes, update_asked, reached-IsDropBook,
}
use deso_backend.NftDrop.NewDrop.{admin_update_nft_drop-new}

unfoldable pub write_entry : DropEntry → Bytes
write_entry d =
    (if d.is_active then 1 else 0) ∷ d.drop_number ∷ d.drop_tstamp_nanos ∷ write_texts d.nft_hashes

unfoldable pub read_entry : Bytes → Result Bytes DropEntry
read_entry (active ∷ number ∷ tstamp ∷ hashes) = ok (record {
  is_active = active == 1;
  drop_number = number;
  drop_tstamp_nanos = tstamp;
  nft_hashes = read_texts hashes;
})
read_entry text = err text

pub read_written_entry :
    (d : DropEntry) {text : Bytes}
    → ◌≡◌ {A = Result Bytes Bytes} (ok (write_entry d)) (ok text)
    → read_entry text ≡ ok d
unfolding write_entry read_entry
read_written_entry d h = elim (Bool-cases d.is_active) [
  | inl e ↦ ground (arith, e, read_written_texts d.nft_hashes)
  | inr e ↦ ground (arith, e, read_written_texts d.nft_hashes)
]

abbrev pub codec : DropCodec
codec = record {
  gob = record {
    marshal = λ d. ok (write_entry d);
    unmarshal = read_entry;
    unmarshal-marshal = read_written_entry;
  };
  hex_decode = ok;
  hash_size_bytes = 32;
}

unfoldable slot_get : Bytes → Option Bytes → Bytes → Option (Result Bytes Bytes)
slot_get slot none key = none
slot_get slot (some v) key = if bytes_eq slot key then some (ok v) else none

unfoldable slot_set : Bytes → Option Bytes → Bytes → Bytes → Result Bytes (Option Bytes)
slot_set slot db key v = if bytes_eq slot key then ok (some v) else err (codes "full")

unfoldable slot_delete : Bytes → Option Bytes → Bytes → Result Bytes (Option Bytes)
slot_delete slot db key = ok (if bytes_eq slot key then none else db)

unfoldable slot_seek : Bytes → Option Bytes → Result Bytes (List Bytes × List Bytes)
slot_seek slot none = ok ([], [])
slot_seek slot (some v) = ok (slot ∷ [], v ∷ [])

set_self :
    (slot : Bytes) (db : Option Bytes) (k v : Bytes) {after : Option Bytes}
    → slot_set slot db k v ≡ ok after
    → slot_get slot after k ≡ some (ok v)
unfolding slot_set slot_get
set_self slot db k v h = ground arith

set_ne :
    (slot : Bytes) (db : Option Bytes) (j k v : Bytes) {after : Option Bytes}
    → j ≢ k
    → slot_set slot db k v ≡ ok after
    → slot_get slot after j ≡ slot_get slot db j
unfolding slot_set slot_get
set_ne slot none j k v other h = ground (arith, bytes_eq→eq slot k, bytes_eq→eq slot j)
set_ne slot (some w) j k v other h = ground (arith, bytes_eq→eq slot k, bytes_eq→eq slot j)

delete_self :
    (slot : Bytes) (db : Option Bytes) (k : Bytes) {after : Option Bytes}
    → slot_delete slot db k ≡ ok after
    → slot_get slot after k ≡ none
unfolding slot_delete slot_get
delete_self slot none k h = ground arith
delete_self slot (some w) k h = ground arith

delete_ne :
    (slot : Bytes) (db : Option Bytes) (j k : Bytes) {after : Option Bytes}
    → j ≢ k
    → slot_delete slot db k ≡ ok after
    → slot_get slot after j ≡ slot_get slot db j
unfolding slot_delete slot_get
delete_ne slot none j k other h = ground arith
delete_ne slot (some w) j k other h = ground (arith, bytes_eq→eq slot k, bytes_eq→eq slot j)

abbrev one_slot : Bytes → Badger
one_slot slot = record {
  Db = Option Bytes;
  get_item = slot_get slot;
  set = slot_set slot;
  delete = slot_delete slot;
  paginated = λ db start valid longest count reverse values. slot_seek slot db;
  get_item-set_self = set_self slot;
  get_item-set_ne = set_ne slot;
  get_item-delete_self = delete_self slot;
  get_item-delete_ne = delete_ne slot;
}

abbrev here : GlobalState
here = record { remote_node = []; remote_secret = [] }

here-local : has_remote here ≡ false
unfolding has_remote
here-local = refl

no_entry : (d : DropEntry) → read_entry [] ≢ ok d
unfolding read_entry
no_entry d h = absurd cc

abbrev first_slot : Badger
first_slot = one_slot (key_for_nft_drop_entry encoding 1)

slot_ne :
    (m : ℕ)
    → 1 < m
    → m < 2 ^ 64
    → bytes_eq (key_for_nft_drop_entry encoding 1) (key_for_nft_drop_entry encoding m) ≡ false
unfolding key_for_nft_drop_entry
slot_ne m above bound =
    elim (Bool-cases
      (bytes_eq (key_for_nft_drop_entry encoding 1) (key_for_nft_drop_entry encoding m))) [
        | inr e ↦ e
        | inl e ↦ absurd (
            omega
              (arith, big_endian-injective 1 m (omega arith) bound (cc (bytes_eq→eq _ _ e)), above))
      ]

seeks_first : (db : Option Bytes) → Latest encoding first_slot json no_network db
unfolding seek_local slot_seek slot_get
seeks_first none = none_held [] refl (λ m h. refl)
seeks_first (some text) =
    last_held (key_for_nft_drop_entry encoding 1 ∷ []) 1 text refl (omega arith)
      (rw (bytes_eq_refl (key_for_nft_drop_entry encoding 1)) refl)
      (λ m above bound. rw (slot_ne m above bound) refl)

abbrev asks : ℕ → ℕ → UpdateRequest
asks number tstamp = record {
  drop_number = pos number;
  drop_tstamp_nanos = pos tstamp;
  is_active = true;
  nft_hash_hex_to_add = [];
  nft_hash_hex_to_remove = [];
}

abbrev FirstState : Type 0
FirstState = State first_slot json no_network

asks_next :
    (number tstamp : ℕ) (s : FirstState) (l0 : DropEntry)
    → (get_latest_nft_drop_entry codec encoding first_slot json no_network here s).0 ≡ ok l0
    → number < 2 ^ 63
    → number ≤ l0.drop_number + 1
    → AsksNext codec encoding first_slot json no_network here (ok (asks number tstamp)) s
asks_next number tstamp s l0 is_latest small next r m latest e f g =
    let same_r : asks number tstamp ≡ r = ground (arith, e) in
    let same_m : number ≡ m = grind (arith, same_r, f) in
    let same_l : l0 ≡ latest = ground (arith, is_latest, g) in
    (
      omega (arith, same_m, small),
      omega (arith, ap (λ (d : DropEntry). d.drop_number) same_l, same_m, next),
    )

-- a post that is not known
abbrev no_posts : Result Bytes Posts
no_posts = ok (λ hash. none)

abbrev asked : ℕ → UpdateRequest → FirstState → FirstState
asked now r s =
    (admin_update_nft_drop codec encoding first_slot json no_network here now no_posts (ok r) s).1

abbrev announced : FirstState
announced = asked 10 (asks 1 20) (none, tt)

abbrev first_drop : DropEntry
first_drop = record no_drop { drop_number = 1; drop_tstamp_nanos = 20 }

nothing_latest :
    (get_latest_nft_drop_entry codec encoding first_slot json no_network here (none, tt)).0
    ≡ ok no_drop
unfolding get_latest_nft_drop_entry latest_of has_remote seek seek_local slot_seek
nothing_latest = refl

announced_latest :
    (get_latest_nft_drop_entry codec encoding first_slot json no_network here announced).0
    ≡ ok first_drop
unfolding admin_update_nft_drop apply_update get_latest_nft_drop_entry get_nft_drop_entry
    store_drop_entry entry_with_text encode_entry decode_entry latest_of new_drop_entry has_remote
    get put seek update seek_local get_local write_entry read_entry write_texts read_texts slot_get
    slot_set slot_seek bytes_eq key_for_nft_drop_entry big_endian prefix_byte
announced_latest = refl

moved_history :
    DropHistory codec encoding first_slot json no_network here 15 (asked 15 (asks 1 40) announced)
unfolding slot_get
moved_history =
    let announcing =
      update_asked 10 no_posts (ok (asks 1 20)) (none, tt)
        (asks_next 1 20 (none, tt) no_drop nothing_latest (omega arith) (omega arith))
        (no_drops 10 (none, tt) (λ m h. refl)) in
    update_asked 15 no_posts (ok (asks 1 40)) announced
      (asks_next 1 40 announced first_drop announced_latest (omega arith) (omega arith))
      (time_passes 10 15 announced (omega arith) announcing)

reached-IsDropBook_example : IsDropBook 15 (
    DropsOf codec encoding first_slot json no_network here here-local
      (λ d. (write_entry d, refl))
      no_entry
      (asked 15 (asks 1 40) announced).0)
reached-IsDropBook_example =
    reached-IsDropBook codec encoding first_slot json no_network here here-local
      (λ d. (write_entry d, refl)) no_entry seeks_first moved_history

-- a database with room for drop 5 only
abbrev fifth_slot : Badger
fifth_slot = one_slot (key_for_nft_drop_entry encoding 5)

abbrev after_fifth : Result DropError DropEntry × State fifth_slot json no_network
after_fifth =
    admin_update_nft_drop codec encoding fifth_slot json no_network here 10 no_posts
      (ok (asks 5 20)) (none, tt)

fifth_latest :
    (get_latest_nft_drop_entry codec encoding fifth_slot json no_network here (none, tt)).0
    ≡ ok no_drop
unfolding get_latest_nft_drop_entry latest_of has_remote seek seek_local slot_seek
fifth_latest = refl

fifth_is_first : after_fifth.0 ≡ ok first_drop
unfolding admin_update_nft_drop apply_update get_latest_nft_drop_entry get_nft_drop_entry
    store_drop_entry entry_with_text encode_entry decode_entry latest_of new_drop_entry has_remote
    get put seek update seek_local get_local write_entry read_entry write_texts read_texts slot_get
    slot_set slot_seek bytes_eq key_for_nft_drop_entry big_endian prefix_byte
fifth_is_first = refl

admin_update_nft_drop-new_example :
    (first_drop.drop_number ≡ 1)
    × ((asks 5 20).drop_tstamp_nanos ≡ pos 20)
    × (0 ≤ 10)
    × (0 ≤ 20)
    × ((get_nft_drop_entry codec encoding fifth_slot json no_network here 5 after_fifth.1).0
        ≡ ok first_drop)
unfolding seek_local slot_seek slot_get
admin_update_nft_drop-new_example =
    admin_update_nft_drop-new codec encoding fifth_slot json no_network here here-local
      (λ d. (write_entry d, refl)) no_entry 10 5 no_posts (asks 5 20) (none, tt) no_drop first_drop
      (none_held [] refl (λ m h. refl)) refl fifth_latest (omega arith) fifth_is_first
