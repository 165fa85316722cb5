-- ===== src/NftDrop/History.antt =====
-- Histories of the drops: the clock goes on, and requests to `AdminUpdateNFTDrop` are served
-- (routes/admin_nft.go).
use deso_backend.Base.{ℕ, ◌^◌, ◌≤◌, ◌<◌, ◌≡◌, ◌≢◌, false, [], Bytes, none, Result, ok}
use deso_backend.GlobalState.Encoding.{Encoding}
use deso_backend.GlobalState.Keys.Content.{key_for_nft_drop_entry}
use deso_backend.GlobalState.Store.Interface.{Badger, Json, Network}
use deso_backend.GlobalState.Store.Client.{GlobalState, State, has_remote}
use deso_backend.NftDrop.{DropEntry, UpdateRequest, DropCodec, Posts, admin_update_nft_drop}
use deso_backend.NftDrop.Book.{IsDropBook, IsDropBook-later}
use deso_backend.NftDrop.Storage.{Latest, not-Held}
use deso_backend.NftDrop.Preserved.{AsksNext, DropsOf, admin_update_nft_drop-IsDropBook}

-- The times and states that a node reaches from a database without drops, when each new drop is
-- asked for under the next number.
pub data DropHistory (dc : DropCodec) (en : Encoding) (b : Badger) (j : Json) (n : Network)
    (gs : GlobalState) : ℕ → State b j n → Type 0 where
  no_drops :
      (now : ℕ) (s : State b j n)
      → ((m : ℕ) → m < 2 ^ 64 → b.get_item s.0 (key_for_nft_drop_entry en m) ≡ none)
      → DropHistory dc en b j n gs now s
  time_passes :
      (now later : ℕ) (s : State b j n)
      → now ≤ later
      → DropHistory dc en b j n gs now s
      → DropHistory dc en b j n gs later s
  update_asked :
      (now : ℕ) (view : Result Bytes Posts) (request : Result Bytes UpdateRequest) (s : State b j n)
      → AsksNext dc en b j n gs request s
      → DropHistory dc en b j n gs now s
      → DropHistory dc en b j n gs now (admin_update_nft_drop dc en b j n gs now view request s).1

module _ (dc : DropCodec) (en : Encoding) (b : Badger) (j : Json) (n : Network) (gs : GlobalState)
    (local : has_remote gs ≡ false)
    (encodes : (d : DropEntry) → (text : Bytes) × (dc.gob.marshal d ≡ ok text))
    (no_bytes : (d : DropEntry) → dc.gob.unmarshal [] ≢ ok d)
    (seeks_latest : (db : b.Db) → Latest en b j n db) where
  nothing-IsDropBook :
      (now : ℕ) (s : State b j n)
      → ((m : ℕ) → m < 2 ^ 64 → b.get_item s.0 (key_for_nft_drop_entry en m) ≡ none)
      → IsDropBook now (DropsOf dc en b j n gs local encodes no_bytes s.0)
  nothing-IsDropBook now s missing = record {
    filed = λ m d held.
        absurd (not-Held dc en b j n gs local encodes no_bytes s.0 m d (missing m held.0) held);
    dated = λ m l d e before held held_l.
        absurd (not-Held dc en b j n gs local encodes no_bytes s.0 m d (missing m held.0) held);
  }

  -- On a local database, with entries that can be encoded, an empty text that is not an entry, and
  -- a seek that finds the last drop: in every state that a node reaches from one without drops, as
  -- time passes and any requests to AdminUpdateNFTDrop are served that ask for at most the number
  -- after the latest one, each drop is stored under its own number, the times of the drops do not
  -- fall, and a drop that another one follows is not in the future.
  pub reached-IsDropBook :
      {now : ℕ} {s : State b j n}
      → DropHistory dc en b j n gs now s
      → IsDropBook now (DropsOf dc en b j n gs local encodes no_bytes s.0)
  reached-IsDropBook (no_drops now s missing) = nothing-IsDropBook now s missing
  reached-IsDropBook (time_passes now later s h before) =
      IsDropBook-later h (reached-IsDropBook before)
  reached-IsDropBook (update_asked now view request s asks before) =
      admin_update_nft_drop-IsDropBook dc en b j n gs local encodes no_bytes now view request s
        (seeks_latest s.0) asks (reached-IsDropBook before)
