-- ===== src/GlobalState/Store/Remote.antt =====
-- `Put` and `Get` of a node that keeps its state on another node (routes/global_state.go).
use deso_backend.Base.{
  ◌≤◌, ◌<◌, ◌⊎◌, inl, inr, ◌||◌, length, take_all, ltb, ltb→lt, ltb-ge, ◌≡◌, refl, true, false,
  Bytes, codes, Bool-cases, Bool-cases, bytes_eq, Option, none, some, Result, ok, err, panic, arith,
  if◌then◌else◌,
}
use deso_backend.GlobalState.Store.Interface.{Badger, Codec, Json, HttpReply, Network}
use deso_backend.GlobalState.Store.Client.{
  Error, request_error, GlobalState, State, has_remote, remote_url, route_path_put_remote,
  route_path_get_remote, decode_or, ignore_reply, put, get,
}
use deso_backend.GlobalState.Store.Server.{
  max_request_body_size_bytes, bad_request_reply, reply_of, handle, put_remote, get_remote,
}
use deso_backend.GlobalState.Store.Asked.{received, other_node, send_lem, ask_get, ask_put}
use deso_backend.GlobalState.Store.Route.{post_request, uri_of, remote_route, open_route}
use deso_backend.Access.{AccessConfig, TokenLib, is_open}
use deso_backend.GlobalState.Store.Local.{get-put, put_failed}

-- what the client returns for a result of the other node's `Get`
abbrev pub seen_remotely : Result Error (Option Bytes) → Result Error (Option Bytes)
seen_remotely (ok v) = ok v
seen_remotely (err e) = ok none
seen_remotely panic = err request_error

-- what the client returns for a result of the other node's `Put`
abbrev pub told_remotely : Result Error (Unit {0}) → Result Error (Unit {0})
told_remotely (ok u) = ok tt
told_remotely (err e) = ok tt
told_remotely panic = err request_error

abbrev pub Encodes : {A : Type 0} → Codec A → Type 0
Encodes {A} codec = (a : A) → (text : Bytes) × (codec.marshal a ≡ ok text)

-- a request that encodes to a body within the limit of the handlers
abbrev pub Fits : {A : Type 0} → Codec A → A → Type 0
Fits codec a =
    (text : Bytes) × (codec.marshal a ≡ ok text) × (length text ≤ max_request_body_size_bytes)

-- The node `gs` posts to `server` behind its routes, one of whose lists of admins is "*" alone.
module _ (b : Badger) (j : Json) (n : Network) (tl : TokenLib) (config : AccessConfig)
    (gs : GlobalState) (server : GlobalState)
    (post : State b j n → Bytes → Bytes → Option HttpReply × State b j n)
    (remote : has_remote gs ≡ true)
    (is_free : (is_open config.admin_public_keys || is_open config.super_admin_public_keys) ≡ true)
    (posts-put : (w : State b j n) (body : Bytes)
      → post w (remote_url gs route_path_put_remote) body
        ≡ remote_route b j n tl config
            (put_remote b j n server)
            (post_request (uri_of gs route_path_put_remote) body)
            w)
    (posts-get : (w : State b j n) (body : Bytes)
      → post w (remote_url gs route_path_get_remote) body
        ≡ remote_route b j n tl config
            (get_remote b j n server)
            (post_request (uri_of gs route_path_get_remote) body)
            w)
    (get_response_encodes : Encodes j.get_response)
    (empty_response_encodes : Encodes j.empty_response) where
  read_reply :
      (r : Result Error (Option Bytes))
      → decode_or b j
          (other_node b j n post)
          j.get_response
          none
          (received (reply_of j j.get_response (codes "GetRemote") r))
        ≡ seen_remotely r
  unfolding reply_of decode_or bad_request_reply
  read_reply (ok v) =
      let (text, e) = get_response_encodes v in
      rw (reply_of, e) (ground (arith, j.get_response.unmarshal-marshal v e))
  read_reply (err e) = ground (arith, j.get_response-error_body (codes "GetRemote"))
  read_reply panic = refl

  written_reply :
      (r : Result Error (Unit {0}))
      → ignore_reply b j
          (other_node b j n post)
          (received (reply_of j j.empty_response (codes "PutRemote") r))
        ≡ told_remotely r
  unfolding reply_of ignore_reply bad_request_reply
  written_reply (ok u) = let (text, e) = empty_response_encodes u in rw (reply_of, e) refl
  written_reply (err e) = refl
  written_reply panic = refl

  answer_get :
      (key body : Bytes) (w : State b j n)
      → j.get_request.marshal key ≡ ok body
      → length body ≤ max_request_body_size_bytes
      → post w (remote_url gs route_path_get_remote) body ≡ (
        reply_of j j.get_response (codes "GetRemote") (get b j n server key w).0,
        (get b j n server key w).1,
      )
  unfolding get_remote handle
  answer_get key body w e fits =
      rw
        (
          posts-get w body,
          open_route b j n tl config (get_remote b j n server) (uri_of gs route_path_get_remote)
              body w is_free,
          get_remote,
          handle,
          take_all max_request_body_size_bytes body fits,
          j.get_request.unmarshal-marshal key e,
        )
        refl

  answer_put :
      (key v body : Bytes) (w : State b j n)
      → j.put_request.marshal (key, v) ≡ ok body
      → length body ≤ max_request_body_size_bytes
      → post w (remote_url gs route_path_put_remote) body ≡ (
        reply_of j j.empty_response (codes "PutRemote") (put b j n server key v w).0,
        (put b j n server key v w).1,
      )
  unfolding put_remote handle
  answer_put key v body w e fits =
      rw
        (
          posts-put w body,
          open_route b j n tl config (put_remote b j n server) (uri_of gs route_path_put_remote)
              body w is_free,
          put_remote,
          handle,
          take_all max_request_body_size_bytes body fits,
          j.put_request.unmarshal-marshal (key, v) e,
        )
        refl

  -- the body of a put is cut off at the limit
  answer_large_put :
      (key v body : Bytes) (w : State b j n)
      → j.put_request.marshal (key, v) ≡ ok body
      → max_request_body_size_bytes < length body
      → post w (remote_url gs route_path_put_remote) body
        ≡ (bad_request_reply j (codes "PutRemote"), w)
  unfolding put_remote handle
  answer_large_put key v body w e large =
      let (x, cut) = j.put_request-cut (key, v) e max_request_body_size_bytes large in
      rw
        (
          posts-put w body,
          open_route b j n tl config (put_remote b j n server) (uri_of gs route_path_put_remote)
              body w is_free,
          put_remote,
          handle,
          cut,
        )
        refl

  -- The client's get of a key whose request fits returns what the other node's get returns, but a
  -- missing key where that one fails, and an error of the request where it panics.
  get_remotely :
      (key : Bytes) (db : b.Db) (w : State b j n)
      → Fits j.get_request key
      → get b j (other_node b j n post) gs key (db, w)
        ≡ (seen_remotely (get b j n server key w).0, (db, (get b j n server key w).1))
  get_remotely key db w (body, e, fits) =
      rw
        (
          ask_get b j n gs post remote key body (db, w) e,
          send_lem b j n gs post remote (remote_url gs route_path_get_remote) body db w,
          answer_get key body w e fits,
          read_reply (get b j n server key w).0,
        )
        refl

  -- The client's put of a request that fits has the effect of the other node's put on that node's
  -- state; it reports success unless the other node's put panics.
  put_remotely :
      (key v : Bytes) (db : b.Db) (w : State b j n)
      → Fits j.put_request (key, v)
      → put b j (other_node b j n post) gs key v (db, w)
        ≡ (told_remotely (put b j n server key v w).0, (db, (put b j n server key v w).1))
  put_remotely key v db w (body, e, fits) =
      rw
        (
          ask_put b j n gs post remote key v body (db, w) e,
          send_lem b j n gs post remote (remote_url gs route_path_put_remote) body db w,
          answer_put key v body w e fits,
          written_reply (put b j n server key v w).0,
        )
        refl

  -- Where another node keeps the store locally, answers the two URLs by the routes of its handlers,
  -- which are for admins, and has a list of admins that is "*" alone, where the replies encode, and
  -- where both requests encode to bodies within the limit of the handlers: after the client puts a
  -- value and the other node's write succeeds, the client reads that value under its key, and under
  -- any other key what it read before.
  pub get-put_remotely :
      (key v other : Bytes) (db : b.Db) (w : State b j n)
      → has_remote server ≡ false
      → Fits j.put_request (key, v)
      → Fits j.get_request other
      → (put b j n server key v w).0 ≡ ok tt
      → (get b j
          (other_node b j n post)
          gs
          other
          (put b j (other_node b j n post) gs key v (db, w)).1).0
        ≡ (if bytes_eq key other
            then ok (some v)
            else (get b j (other_node b j n post) gs other (db, w)).0)
  get-put_remotely key v other db w local put_fits get_fits written =
      rw
        (
          put_remotely key v db w put_fits,
          get_remotely other db (put b j n server key v w).1 get_fits,
          get_remotely other db w get_fits,
          get-put b j n server local key v other w written,
        )
        (ground (arith, Bool-cases (bytes_eq key other)))

  large_put_lost :
      (key v body : Bytes) (db : b.Db) (w : State b j n)
      → j.put_request.marshal (key, v) ≡ ok body
      → max_request_body_size_bytes < length body
      → put b j (other_node b j n post) gs key v (db, w) ≡ (ok tt, (db, w))
  unfolding bad_request_reply ignore_reply
  large_put_lost key v body db w e large =
      rw
        (
          ask_put b j n gs post remote key v body (db, w) e,
          send_lem b j n gs post remote (remote_url gs route_path_put_remote) body db w,
          answer_large_put key v body w e large,
        )
        refl

  -- Where another node keeps the store locally, answers the two URLs by the routes of its handlers
  -- and has a list of admins that is "*" alone, where the replies and the request encode, and where
  -- the other node's write is refused or the body of the request is beyond the limit of the
  -- handlers: the client's put returns no error, and nothing is changed.
  pub put_remotely_lost :
      (key v body : Bytes) (db : b.Db) (w : State b j n)
      → has_remote server ≡ false
      → j.put_request.marshal (key, v) ≡ ok body
      → ((e : Error) × ((put b j n server key v w).0 ≡ err e))
        ⊎ (max_request_body_size_bytes < length body)
      → put b j (other_node b j n post) gs key v (db, w) ≡ (ok tt, (db, w))
  put_remotely_lost key v body db w local encoded (inr large) =
      large_put_lost key v body db w encoded large
  put_remotely_lost key v body db w local encoded (inl (e, refused)) =
      elim (Bool-cases (ltb max_request_body_size_bytes (length body))) [
        | inl large ↦
            large_put_lost key v body db w encoded
              (ltb→lt max_request_body_size_bytes (length body) large)
        | inr fits ↦
            rw
              (
                put_remotely key v db w
                    (body, encoded, ltb-ge max_request_body_size_bytes (length body) fits),
                refused,
                put_failed b j n server local key v w (λ h. cc (refused, h)),
              )
              refl
      ]
