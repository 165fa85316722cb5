-- ===== src/GlobalState/Store/Client.antt =====
-- The methods of `GlobalState` (routes/global_state.go). A call returns its result and the local
-- database and the network behind it.
use deso_backend.Base.{
  Bool, not, List, [], ◌∷◌, ◌++◌, Bytes, codes, length, Option, none, some, Result, ok, err, panic,
  ◌>>=◌, or_fail, ◌==◌, if◌then◌else◌,
}
use deso_backend.GlobalState.Store.Interface.{Badger, Codec, Json, HttpReply, Network, SeekRequest}

pub data Error : Type 0 where
  marshal_error request_error value_error seek_error : Error
  database_error : Bytes → Error
  parse_error encode_error : Error

-- `GlobalStateRemoteNode` and `GlobalStateRemoteSecret`; the database is in the state.
pub record GlobalState : Type 0 where
  pub remote_node : Bytes
  pub remote_secret : Bytes

abbrev pub route_path_put_remote : Bytes
route_path_put_remote = codes "/api/v1/global-state/put"

abbrev pub route_path_get_remote : Bytes
route_path_get_remote = codes "/api/v1/global-state/get"

abbrev pub route_path_batch_get_remote : Bytes
route_path_batch_get_remote = codes "/api/v1/global-state/batch-get"

abbrev pub route_path_delete_remote : Bytes
route_path_delete_remote = codes "/api/v1/global-state/delete"

abbrev pub route_path_seek_remote : Bytes
route_path_seek_remote = codes "/api/v1/global-state/seek"

-- `gs.GlobalStateRemoteNode != ""`
unfoldable pub has_remote : GlobalState → Bool
has_remote gs = not (length gs.remote_node == 0)

-- "%s%s?%s=%s"
unfoldable pub remote_url : GlobalState → Bytes → Bytes
remote_url gs route = gs.remote_node ++ (route ++ (codes "?shared_secret=" ++ gs.remote_secret))

unfoldable pub create_request :
    {A : Type 0} → GlobalState → Bytes → Codec A → A → Result Error (Bytes × Bytes)
create_request gs route codec request = elim (codec.marshal request) [
  | ok json_data ↦ ok (remote_url gs route, json_data)
  | err e ↦ err marshal_error
  | panic ↦ panic
]

module _ (b : Badger) (j : Json) (n : Network) where
  open b use {Db, get_item, set, delete, paginated}
  open n use {World, post}

  abbrev pub State : Type 0
  State = Db × World

  unfoldable pub create_put_request : GlobalState → Bytes → Bytes → Result Error (Bytes × Bytes)
  create_put_request gs key value =
      create_request gs route_path_put_remote j.put_request (key, value)

  unfoldable pub create_get_request : GlobalState → Bytes → Result Error (Bytes × Bytes)
  create_get_request gs key = create_request gs route_path_get_remote j.get_request key

  unfoldable pub create_batch_get_request : GlobalState → List Bytes → Result Error (Bytes × Bytes)
  create_batch_get_request gs key_list =
      create_request gs route_path_batch_get_remote j.batch_get_request key_list

  unfoldable pub create_delete_request : GlobalState → Bytes → Result Error (Bytes × Bytes)
  create_delete_request gs key = create_request gs route_path_delete_remote j.delete_request key

  unfoldable pub create_seek_request : GlobalState → SeekRequest → Result Error (Bytes × Bytes)
  create_seek_request gs request = create_request gs route_path_seek_remote j.seek_request request

  -- `http.Post` of a request that was made, and the test of its error
  unfoldable pub send : Result Error (Bytes × Bytes) → State → Result Error HttpReply × State
  send (ok (url, json_data)) (db, world) =
      let (reply, world') = post world url json_data in
      elim reply [ none ↦ (err request_error, (db, world')) | some r ↦ (ok r, (db, world')) ]
  send (err e) s = (err e, s)
  send panic s = (panic, s)

  -- what is decoded from the body of a reply; an error of the decoder is not looked at
  unfoldable pub decode_or : {A : Type 0} → Codec A → A → Result Error HttpReply → Result Error A
  decode_or codec zero_value (ok reply) = elim (codec.unmarshal reply.body) [
    | ok a ↦ ok a
    | err e ↦ ok zero_value
    | panic ↦ panic
  ]
  decode_or codec zero_value (err e) = err e
  decode_or codec zero_value panic = panic

  -- `GlobalStateDB.Update`
  unfoldable pub update : Result Bytes Db → State → Result Error (Unit {0}) × State
  update (ok db') (db, world) = (ok tt, (db', world))
  update (err e) s = (err (database_error e), s)
  update panic s = (panic, s)

  -- the reply to `Put` and `Delete` is closed unread
  unfoldable pub ignore_reply : Result Error HttpReply → Result Error (Unit {0})
  ignore_reply (ok reply) = ok tt
  ignore_reply (err e) = err e
  ignore_reply panic = panic

  unfoldable pub put : GlobalState → Bytes → Bytes → State → Result Error (Unit {0}) × State
  put gs key value s =
      let (reply, s') = send (create_put_request gs key value) s in
      if has_remote gs then (ignore_reply reply, s') else update (set s.0 key value) s

  unfoldable pub get_local : Bytes → Db → Result Error (Option Bytes)
  get_local key db = elim (get_item db key) [
    | none ↦ ok none
    | some (ok value) ↦ ok (some value)
    | some (err e) ↦ err value_error
    | some panic ↦ panic
  ]

  unfoldable pub get : GlobalState → Bytes → State → Result Error (Option Bytes) × State
  get gs key s =
      let (reply, s') = send (create_get_request gs key) s in
      if has_remote gs then (decode_or j.get_response none reply, s') else (get_local key s.0, s)

  unfoldable pub batch_get_local : List Bytes → Db → Result Error (List Bytes)
  batch_get_local [] db = ok []
  batch_get_local (key ∷ keys) db =
      let rest = batch_get_local keys db in
      elim (get_item db key) [
        | none ↦ rest >>= λ values. ok ([] ∷ values)
        | some (ok value) ↦ rest >>= λ values. ok (value ∷ values)
        | some (err e) ↦ err value_error
        | some panic ↦ panic
      ]

  unfoldable pub batch_get : GlobalState → List Bytes → State → Result Error (List Bytes) × State
  batch_get gs keys s =
      let (reply, s') = send (create_batch_get_request gs keys) s in
      if has_remote gs
      then (decode_or j.batch_get_response [] reply, s')
      else (batch_get_local keys s.0, s)

  unfoldable pub delete_key : GlobalState → Bytes → State → Result Error (Unit {0}) × State
  delete_key gs key s =
      let (reply, s') = send (create_delete_request gs key) s in
      if has_remote gs then (ignore_reply reply, s') else update (delete s.0 key) s

  unfoldable pub seek_local : SeekRequest → Db → Result Error (List Bytes × List Bytes)
  seek_local r db =
      or_fail
        (paginated db r.start_prefix r.valid_for_prefix r.max_key_len r.num_to_fetch r.reverse
          r.fetch_values)
        (λ e. seek_error)

  unfoldable pub seek :
      GlobalState → SeekRequest → State → Result Error (List Bytes × List Bytes) × State
  seek gs r s =
      let (reply, s') = send (create_seek_request gs r) s in
      if has_remote gs
      then (decode_or j.seek_response ([], []) reply, s')
      else (seek_local r s.0, s)
