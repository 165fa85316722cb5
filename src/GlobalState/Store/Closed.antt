-- ===== src/GlobalState/Store/Closed.antt =====
-- A node that keeps its state on another node, whose routes of the store are not open to everyone
-- (routes/global_state.go and routes/server.go).
use deso_backend.Base.{
  ◌≡◌, refl, true, false, ◌||◌, [], Bytes, codes, Option, none, ok, arith, take,
}
use deso_backend.GlobalState.Store.Interface.{Badger, Json, HttpReply, Network}
use deso_backend.GlobalState.Store.Client.{
  GlobalState, State, has_remote, remote_url, route_path_put_remote, route_path_get_remote,
  decode_or, ignore_reply, put, get,
}
use deso_backend.GlobalState.Store.Server.{bad_request_reply, put_remote, get_remote}
use deso_backend.GlobalState.Store.Asked.{other_node, send_lem, ask_get, ask_put}
use deso_backend.GlobalState.Store.Route.{post_request, uri_of, remote_route, closed_route}
use deso_backend.Access.{AccessConfig, AdminRequest, TokenLib, is_open}

module _ (b : Badger) (j : Json) (n : Network) (tl : TokenLib) (config : AccessConfig)
    (gs : GlobalState) (server : GlobalState)
    (post : State b j n → Bytes → Bytes → Option HttpReply × State b j n)
    (remote : has_remote gs ≡ true)
    (closed : (is_open config.admin_public_keys || is_open config.super_admin_public_keys) ≡ false)
    (posts-put : (w : State b j n) (body : Bytes)
      → post w (remote_url gs route_path_put_remote) body
        ≡ remote_route b j n tl config
            (put_remote b j n server)
            (post_request (uri_of gs route_path_put_remote) body)
            w)
    (posts-get : (w : State b j n) (body : Bytes)
      → post w (remote_url gs route_path_get_remote) body
        ≡ remote_route b j n tl config
            (get_remote b j n server)
            (post_request (uri_of gs route_path_get_remote) body)
            w) where
  -- the body is decoded as a request of an admin, and has no key of one
  abbrev pub HasNoKey : Bytes → Type 0
  HasNoKey body =
      (request : AdminRequest) × (tl.decode_admin_request (take tl.max_request_body_size_bytes body)
        ≡ ok request)
      × (request.admin_public_key ≡ [])

  refused_put :
      (key v body : Bytes) (db : b.Db) (w : State b j n)
      → j.put_request.marshal (key, v) ≡ ok body
      → HasNoKey body
      → put b j (other_node b j n post) gs key v (db, w) ≡ (ok tt, (db, w))
  unfolding bad_request_reply ignore_reply
  refused_put key v body db w e (request, decoded, no_key) =
      rw
        (
          ask_put b j n gs post remote key v body (db, w) e,
          send_lem b j n gs post remote (remote_url gs route_path_put_remote) body db w,
          posts-put w body,
          closed_route b j n tl config (put_remote b j n server) (uri_of gs route_path_put_remote)
              body w request closed decoded no_key,
        )
        refl

  refused_get :
      (key body : Bytes) (db : b.Db) (w : State b j n)
      → j.get_request.marshal key ≡ ok body
      → HasNoKey body
      → get b j (other_node b j n post) gs key (db, w) ≡ (ok none, (db, w))
  unfolding bad_request_reply decode_or
  refused_get key body db w e (request, decoded, no_key) =
      rw
        (
          ask_get b j n gs post remote key body (db, w) e,
          send_lem b j n gs post remote (remote_url gs route_path_get_remote) body db w,
          posts-get w body,
          closed_route b j n tl config (get_remote b j n server) (uri_of gs route_path_get_remote)
              body w request closed decoded no_key,
        )
        (ground (arith, j.get_response-error_body (codes "CheckAdminPublicKey")))

  -- Where another node answers the two URLs by the routes of its handlers, and neither of its lists
  -- of admins is "*" alone, and the bodies of a put and of a get of a key decode as requests of an
  -- admin without the key of one: the client's put returns no error and changes nothing, and its
  -- get returns a missing key.
  pub closed_remote_lost :
      (key v put_body get_body : Bytes) (db : b.Db) (w : State b j n)
      → j.put_request.marshal (key, v) ≡ ok put_body
      → j.get_request.marshal key ≡ ok get_body
      → HasNoKey put_body
      → HasNoKey get_body
      → (put b j (other_node b j n post) gs key v (db, w) ≡ (ok tt, (db, w)))
        × (get b j (other_node b j n post) gs key (db, w) ≡ (ok none, (db, w)))
  closed_remote_lost key v put_body get_body db w put_encoded get_encoded put_none get_none = (
    refused_put key v put_body db w put_encoded put_none,
    refused_get key get_body db w get_encoded get_none,
  )
