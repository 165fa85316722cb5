-- ===== src/GlobalState/Store/Asked.antt =====
-- What a node that keeps its state on another node asks that node (routes/global_state.go).
use deso_backend.Base.{
  ◌≡◌, refl, true, Bytes, Option-cases, Option, none, some, Result, ok, err, arith,
}
use deso_backend.GlobalState.Store.Interface.{Badger, Json, HttpReply, Network}
use deso_backend.GlobalState.Store.Client.{
  Error, request_error, GlobalState, State, has_remote, remote_url, route_path_put_remote,
  route_path_get_remote, send, decode_or, ignore_reply, create_request, create_put_request,
  create_get_request, put, get,
}

-- what `http.Post` gives the client
abbrev pub received : Option HttpReply → Result Error HttpReply
received none = err request_error
received (some reply) = ok reply

-- the network of a client that reaches one other node
abbrev pub other_node :
    (b : Badger) (j : Json) (n : Network)
    → (State b j n → Bytes → Bytes → Option HttpReply × State b j n)
    → Network
other_node b j n post = record { World = State b j n; post = post }

module _ (b : Badger) (j : Json) (n : Network) (gs : GlobalState)
    (post : State b j n → Bytes → Bytes → Option HttpReply × State b j n)
    (remote : has_remote gs ≡ true) where
  pub send_lem :
      (url body : Bytes) (db : b.Db) (w : State b j n)
      → send b j (other_node b j n post) (ok (url, body)) (db, w)
        ≡ (received (post w url body).0, (db, (post w url body).1))
  unfolding send
  send_lem url body db w = ground (arith, Option-cases (post w url body).0)

  pub ask_get :
      (key body : Bytes) (s : State b j (other_node b j n post))
      → j.get_request.marshal key ≡ ok body
      → (let (reply, s') =
            send b j (other_node b j n post) (ok (remote_url gs route_path_get_remote, body)) s in
          get b j (other_node b j n post) gs key s
          ≡ (decode_or b j (other_node b j n post) j.get_response none reply, s'))
  unfolding get create_get_request create_request
  ask_get key body s e = rw (get, remote, create_get_request, create_request, e) refl

  pub ask_put :
      (key v body : Bytes) (s : State b j (other_node b j n post))
      → j.put_request.marshal (key, v) ≡ ok body
      → (let (reply, s') =
            send b j (other_node b j n post) (ok (remote_url gs route_path_put_remote, body)) s in
          put b j (other_node b j n post) gs key v s
          ≡ (ignore_reply b j (other_node b j n post) reply, s'))
  unfolding put create_put_request create_request
  ask_put key v body s e = rw (put, remote, create_put_request, create_request, e) refl
