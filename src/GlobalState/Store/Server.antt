-- ===== src/GlobalState/Store/Server.antt =====
-- The handlers that serve the store to other nodes (routes/global_state.go). `none` is a handler
-- that panics: the connection is closed with no reply.
use deso_backend.Base.{ℕ, Bytes, codes, Option, none, some, Result, ok, err, panic, take}
use deso_backend.GlobalState.Store.Interface.{Badger, Codec, Json, HttpReply, Network}
use deso_backend.GlobalState.Store.Client.{
  Error, GlobalState, State, put, get, batch_get, delete_key, seek,
}

abbrev pub status_ok : ℕ
status_ok = 200

abbrev pub status_bad_request : ℕ
status_bad_request = 400

-- routes/server.go
abbrev pub max_request_body_size_bytes : ℕ
max_request_body_size_bytes = 10000000

-- `_AddBadRequestError` with the name of the handler for the text
unfoldable pub bad_request_reply : Json → Bytes → Option HttpReply
bad_request_reply j text = some (record { status = status_bad_request; body = j.error_body text })

-- the end of a handler: its response as JSON, or an error
unfoldable pub reply_of : {A : Type 0} → Json → Codec A → Bytes → Result Error A → Option HttpReply
reply_of j codec text (ok a) = elim (codec.marshal a) [
  | ok body ↦ some (record { status = status_ok; body = body })
  | err e ↦ bad_request_reply j text
  | panic ↦ none
]
reply_of j codec text (err e) = bad_request_reply j text
reply_of j codec text panic = none

module _ (b : Badger) (j : Json) (n : Network) where
  -- the start of a handler: what is parsed of the body, up to the limit, goes to a method, and an
  -- error ends the request
  unfoldable pub handle :
      {A R : Type 0}
      → Codec A
      → Codec R
      → Bytes
      → (A → State b j n → Result Error R × State b j n)
      → Bytes
      → State b j n
      → Option HttpReply × State b j n
  handle request_codec response_codec text method body s =
      elim (request_codec.unmarshal (take max_request_body_size_bytes body)) [
        | ok request ↦ (reply_of j response_codec text (method request s).0, (method request s).1)
        | err e ↦ (bad_request_reply j text, s)
        | panic ↦ (none, s)
      ]

  unfoldable pub put_remote : GlobalState → Bytes → State b j n → Option HttpReply × State b j n
  put_remote gs =
      handle j.put_request j.empty_response (codes "PutRemote") (λ (k, v). put b j n gs k v)

  unfoldable pub get_remote : GlobalState → Bytes → State b j n → Option HttpReply × State b j n
  get_remote gs = handle j.get_request j.get_response (codes "GetRemote") (get b j n gs)

  unfoldable pub batch_get_remote :
      GlobalState → Bytes → State b j n → Option HttpReply × State b j n
  batch_get_remote gs =
      handle j.batch_get_request j.batch_get_response (codes "BatchGetRemote") (batch_get b j n gs)

  unfoldable pub delete_remote : GlobalState → Bytes → State b j n → Option HttpReply × State b j n
  delete_remote gs =
      handle j.delete_request j.empty_response (codes "DeleteRemote") (delete_key b j n gs)

  unfoldable pub seek_remote : GlobalState → Bytes → State b j n → Option HttpReply × State b j n
  seek_remote gs =
      handle j.seek_request j.seek_response (codes "GlobalStateSeekRemote") (seek b j n gs)
