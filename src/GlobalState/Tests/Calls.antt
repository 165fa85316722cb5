-- ===== src/GlobalState/Tests/Calls.antt =====
-- Calls of a store on a local table, and of one that another node keeps.
use deso_backend.Base.{
  inl, ◌||◌, arith, ◌≡◌, refl, true, false, List, [], ◌∷◌, Bytes, codes, bytes_eq, Option, none,
  some, ok, err, if◌then◌else◌,
}
use deso_backend.GlobalState.Store.Interface.{HttpReply}
use deso_backend.GlobalState.Store.Client.{
  database_error, GlobalState, State, has_remote, remote_url, route_path_put_remote,
  route_path_get_remote, update, put, get, batch_get_local, delete_key,
}
use deso_backend.GlobalState.Store.Server.{put_remote, get_remote}
use deso_backend.GlobalState.Store.Asked.{other_node}
use deso_backend.GlobalState.Store.Route.{post_request, uri_of, remote_route}
use deso_backend.GlobalState.Store.Remote.{get-put_remotely, put_remotely_lost}
use deso_backend.GlobalState.Store.Closed.{closed_remote_lost}
use deso_backend.Access.{AccessConfig, TokenLib, is_open}
use deso_backend.Access.Tests.{token_lib}
use deso_backend.GlobalState.Tests.Model.{badger, json, no_network, Table, table_get, table_set}

abbrev local : GlobalState
local = record { remote_node = []; remote_secret = [] }

local_is_local : has_remote local ≡ false
unfolding has_remote
local_is_local = refl

abbrev rows : Table
rows = (codes "a", codes "1") ∷ ((codes "b", codes "2") ∷ [])

abbrev here : State badger json no_network
here = (rows, tt)

put_is_done : (put badger json no_network local (codes "c") (codes "3") here).0 ≡ ok tt
unfolding put has_remote update table_set
put_is_done = refl

empty_key_refused :
    (put badger json no_network local [] (codes "3") here).0
    ≡ err (database_error (codes "empty key"))
unfolding put has_remote update table_set
empty_key_refused = refl

delete_is_done : (delete_key badger json no_network local (codes "a") here).0 ≡ ok tt
unfolding delete_key has_remote update
delete_is_done = refl

abbrev some_keys : List Bytes
some_keys = codes "b" ∷ (codes "z" ∷ [])

batch_is_read : batch_get_local badger json no_network some_keys rows ≡ ok (codes "2" ∷ ([] ∷ []))
unfolding batch_get_local table_get bytes_eq
batch_is_read = refl

-- the node that asks
abbrev client : GlobalState
client = record { remote_node = codes "https://node"; remote_secret = codes "secret" }

client_is_remote : has_remote client ≡ true
unfolding has_remote
client_is_remote = refl

abbrev config_with : Bytes → AccessConfig
config_with admin = record {
  admin_public_keys = admin ∷ [];
  super_admin_public_keys = [];
  access_control_allow_origins = [];
}

-- the requests of a store have no key of an admin
abbrev keyless_lib : TokenLib
keyless_lib = record token_lib {
  decode_admin_request = λ bytes. ok (record { jwt = []; admin_public_key = [] });
}

-- the other node behind its URLs
unfoldable answer :
    AccessConfig
    → State badger json no_network
    → Bytes
    → Bytes
    → Option HttpReply × State badger json no_network
answer config w url body =
    let put_answer =
      remote_route badger json no_network keyless_lib config
        (put_remote badger json no_network local)
        (post_request (uri_of client route_path_put_remote) body) w in
    let get_answer =
      remote_route badger json no_network keyless_lib config
        (get_remote badger json no_network local)
        (post_request (uri_of client route_path_get_remote) body) w in
    if bytes_eq url (remote_url client route_path_put_remote)
    then put_answer
    else if bytes_eq url (remote_url client route_path_get_remote)
    then get_answer
    else (none, w)

answers_put :
    (config : AccessConfig) (w : State badger json no_network) (body : Bytes)
    → answer config w (remote_url client route_path_put_remote) body
      ≡ remote_route badger json no_network keyless_lib config
          (put_remote badger json no_network local)
          (post_request (uri_of client route_path_put_remote) body)
          w
unfolding answer bytes_eq remote_url
answers_put config w body = refl

answers_get :
    (config : AccessConfig) (w : State badger json no_network) (body : Bytes)
    → answer config w (remote_url client route_path_get_remote) body
      ≡ remote_route badger json no_network keyless_lib config
          (get_remote badger json no_network local)
          (post_request (uri_of client route_path_get_remote) body)
          w
unfolding answer bytes_eq remote_url
answers_get config w body = refl

abbrev open_config : AccessConfig
open_config = config_with (codes "*")

abbrev closed_config : AccessConfig
closed_config = config_with (codes "k")

lists_are_open :
    (is_open open_config.admin_public_keys || is_open open_config.super_admin_public_keys) ≡ true
unfolding is_open bytes_eq
lists_are_open = refl

lists_are_closed :
    (is_open closed_config.admin_public_keys || is_open closed_config.super_admin_public_keys)
    ≡ false
unfolding is_open bytes_eq
lists_are_closed = refl

get-put_remotely_example :
    (get badger json
      (other_node badger json no_network (answer open_config))
      client
      (codes "c")
      (put badger json
        (other_node badger json no_network (answer open_config))
        client
        (codes "c")
        (codes "3")
        (rows, here)).1).0
    ≡ ok (some (codes "3"))
unfolding bytes_eq
get-put_remotely_example =
    get-put_remotely badger json no_network keyless_lib open_config client local
      (answer open_config) client_is_remote lists_are_open (answers_put open_config)
      (answers_get open_config) (λ a. (_, refl)) (λ a. (_, refl)) (codes "c") (codes "3")
      (codes "c") rows here local_is_local (_, refl, omega arith) (_, refl, omega arith) put_is_done

put_remotely_lost_example :
    put badger json
      (other_node badger json no_network (answer open_config))
      client
      []
      (codes "3")
      (rows, here)
    ≡ (ok tt, (rows, here))
put_remotely_lost_example =
    put_remotely_lost badger json no_network keyless_lib open_config client local
      (answer open_config) client_is_remote lists_are_open (answers_put open_config)
      (answers_get open_config) (λ a. (_, refl)) (λ a. (_, refl)) [] (codes "3") _ rows here
      local_is_local refl (inl (database_error (codes "empty key"), empty_key_refused))

closed_remote_lost_example :
    (put badger json
        (other_node badger json no_network (answer closed_config))
        client
        (codes "c")
        (codes "3")
        (rows, here)
      ≡ (ok tt, (rows, here)))
    × (get badger json
          (other_node badger json no_network (answer closed_config))
          client
          (codes "c")
          (rows, here)
        ≡ (ok none, (rows, here)))
closed_remote_lost_example =
    closed_remote_lost badger json no_network keyless_lib closed_config client local
      (answer closed_config) client_is_remote lists_are_closed (answers_put closed_config)
      (answers_get closed_config) (codes "c") (codes "3") _ _ rows here refl refl
      (record { jwt = []; admin_public_key = [] }, refl, refl)
      (record { jwt = []; admin_public_key = [] }, refl, refl)
