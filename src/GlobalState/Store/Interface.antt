-- ===== src/GlobalState/Store/Interface.antt =====
-- The badger database, JSON and HTTP as the store uses them. A nil slice is `none`; an error is
-- its text.
use deso_backend.Base.{
  ℕ, ◌≡◌, ◌≢◌, Bool, List, Bytes, Option, none, some, Result, ok, err, ◌<◌, length, take,
}

-- `get_item` is `txn.Get` and then `item.ValueCopy`: `none` is an error of the first.
pub record Badger : Type 1 where
  pub Db : Type 0
  pub get_item : Db → Bytes → Option (Result Bytes Bytes)
  pub set : Db → Bytes → Bytes → Result Bytes Db
  pub delete : Db → Bytes → Result Bytes Db
  -- `lib.DBGetPaginatedKeysAndValuesForPrefix`
  pub paginated : Db → Bytes → Bytes → ℕ → ℕ → Bool → Bool → Result Bytes (List Bytes × List Bytes)
  pub get_item-set_self :
      (db : Db) (k v : Bytes) {db' : Db} → set db k v ≡ ok db' → get_item db' k ≡ some (ok v)
  pub get_item-set_ne :
      (db : Db) (j k v : Bytes) {db' : Db}
      → j ≢ k
      → set db k v ≡ ok db'
      → get_item db' j ≡ get_item db j
  pub get_item-delete_self :
      (db : Db) (k : Bytes) {db' : Db} → delete db k ≡ ok db' → get_item db' k ≡ none
  pub get_item-delete_ne :
      (db : Db) (j k : Bytes) {db' : Db}
      → j ≢ k
      → delete db k ≡ ok db'
      → get_item db' j ≡ get_item db j

-- JSON for one type: what is encoded is decoded to itself.
pub record Codec (A : Type 0) : Type 0 where
  pub marshal : A → Result Bytes Bytes
  pub unmarshal : Bytes → Result Bytes A
  pub unmarshal-marshal : (a : A) {text : Bytes} → marshal a ≡ ok text → unmarshal text ≡ ok a

pub record SeekRequest : Type 0 where
  pub start_prefix : Bytes
  pub valid_for_prefix : Bytes
  pub max_key_len : ℕ
  pub num_to_fetch : ℕ
  pub reverse : Bool
  pub fetch_values : Bool

pub record Json : Type 0 where
  pub put_request : Codec (Bytes × Bytes)
  -- an object that is cut off is not decoded
  pub put_request-cut :
      (request : Bytes × Bytes) {text : Bytes}
      → put_request.marshal request ≡ ok text
      → (k : ℕ) → k < length text
      → (e : Bytes) × (put_request.unmarshal (take k text) ≡ err e)
  pub get_request : Codec Bytes
  pub get_response : Codec (Option Bytes)
  pub batch_get_request : Codec (List Bytes)
  pub batch_get_response : Codec (List Bytes)
  pub delete_request : Codec Bytes
  pub seek_request : Codec SeekRequest
  pub seek_response : Codec (List Bytes × List Bytes)
  -- `PutRemoteResponse` and `DeleteRemoteResponse` have no fields
  pub empty_response : Codec (Unit {0})
  -- the body of an error reply, and what a decoder of `GetRemoteResponse` makes of it
  pub error_body : Bytes → Bytes
  pub get_response-error_body : (e : Bytes) → get_response.unmarshal (error_body e) ≡ ok none

-- a reply to a request, whatever its status
pub record HttpReply : Type 0 where
  pub status : ℕ
  pub body : Bytes

-- `http.Post` with a URL and a JSON body; `none` is an error of the transport.
pub record Network : Type 1 where
  pub World : Type 0
  pub post : World → Bytes → Bytes → Option HttpReply × World
