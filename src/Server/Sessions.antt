-- ===== src/Server/Sessions.antt =====
-- Sessions: `validate_connection`, `handle_login`, `handle_connection_opened` and
-- `handle_connection_closed`.
pub mod Closing
pub mod Login
pub mod Entering
use Prim.Native.Char.{code}
use co_bridge.Base.{
  ℕ, String, List, [], ◌∷◌, map, Bool, true, false, not, ◌&&◌, Option, none, some, if◌then◌else◌,
  ◌==◌, contains, nat_keys, text_keys,
}
use co_bridge.Base.Assoc.{Assoc, find, emplace, erase, update, is_some}
use co_bridge.Base.Errors.{standard, bad_connection}
use co_bridge.Base.Int.{decrement, is_nat}
use co_bridge.Base.Action.{pure, throw, gets, lift, modify, ◌>>=◌, ◌>>◌, try_catch, for_each}
use co_bridge.Server.Types
use co_bridge.Server.Types.{
  Server, ServerAction, Channel, Service, ServiceWithoutId, ClientInfo, Outgoing, HandlerCall,
}
use co_bridge.Server.Environment.{
  Environment, JsonLibrary, handler_of, call_handler, connection_send, send_json,
}
use co_bridge.Server.Graph.{count_by, subscription_count}
use co_bridge.Server.Parameters.{params_of, unsubscribe_params_without_subscriptions}

abbrev pub supported_sub_protocol : String
supported_sub_protocol = "coBridge.websocket.v1"

abbrev pub foxglove_sub_protocol : String
foxglove_sub_protocol = "foxglove.websocket.v1"

-- `validate_connection`: the subprotocol that is selected, or `none` for a rejected client.
unfoldable pub select_subprotocol : List String → Option String
select_subprotocol requested =
    if contains supported_sub_protocol requested
    then some supported_sub_protocol
    else if contains foxglove_sub_protocol requested
    then some foxglove_sub_protocol
    else none

unfoldable pub validate_connection : Environment → ℕ → Bool
validate_connection env hdl = is_some (select_subprotocol (env.requested_subprotocols hdl))

abbrev pub log_out : ClientInfo → ClientInfo
log_out c = record c { login = false }

abbrev pub new_client : String → String → String → ℕ → ClientInfo
new_client endpoint user_name user_id hdl = record {
  endpoint_name = endpoint;
  user_name = user_name;
  user_id = user_id;
  handle = hdl;
  subscriptions_by_channel = [];
  advertised_channels = [];
  subscribed_to_connection_graph = false;
  login = true;
}

abbrev pub service_of : ℕ × ServiceWithoutId → Service
service_of (id, d) = record { id = id; without_id = d }

abbrev pub value_of : ℕ × Channel → Channel
value_of (id, c) = c

abbrev pub greeting : Server → Outgoing
greeting s =
    Types.server_info s.name s.options.capabilities s.options.supported_encodings s.options.metadata
      s.options.session_id

-- The first client in the order of the map that is logged in, or two empty texts.
unfoldable pub logged_in_user : Assoc ℕ ClientInfo → String × String
logged_in_user [] = ("", "")
logged_in_user ((h, c) ∷ m) = if c.login then (c.user_id, c.user_name) else logged_in_user m

-- `_options.metadata["COLINK"]`: the value, "" for a key that is not there.
unfoldable pub colink_of : Assoc String String → String
colink_of m = elim (find "COLINK" m) [ none ↦ "" | some v ↦ v ]

-- `find(":")` and `substr`: the text up to its first colon, all of it if there is none.
unfoldable pub before_colon : String → String
before_colon String.[] = ""
before_colon (String.◌∷◌ c s) = if code c == b':' then "" else String.◌∷◌ c (before_colon s)

unfoldable pub link_type : String → String → String
link_type endpoint colink_ip =
    if not (colink_ip == "") && before_colon endpoint == colink_ip then "colink" else "other"

module _ (env : Environment) where
  unfoldable pub kick : String → String → ℕ × ClientInfo → ServerAction Unit
  kick user_id user_name c = do
    connection_send env c.0 (Types.kicked user_id user_name)
    modify (λ s. record s { clients = update c.0 log_out s.clients })

  -- What `handle_login` sends to the client that it let in.
  unfoldable pub welcome : ℕ → ServerAction Unit
  welcome hdl = do
    info ← gets greeting
    connection_send env hdl info
    channels ← gets (λ s. s.channels)
    send_json env hdl (Types.advertise (map value_of channels))
    services ← gets (λ s. s.services)
    send_json env hdl (Types.advertise_services (map service_of services))

  -- `handle_login` behind the reading of its payload.
  unfoldable pub login : String → String → ℕ → ServerAction Unit
  login user_name user_id hdl = do
    endpoint ← gets (λ s. env.endpoint s.trace hdl)
    clients ← gets (λ s. s.clients)
    for_each clients (kick user_id user_name)
    modify (λ s. record s {
      clients = emplace hdl (new_client endpoint user_name user_id hdl) s.clients;
    })
    welcome hdl

  -- `operator[]` enters the key "COLINK" where the metadata lack it.
  unfoldable pub handle_connection_opened : ℕ → ServerAction Unit
  handle_connection_opened hdl = do
    connected ← gets (λ s. env.connected s.trace hdl)
    if not connected then throw (standard bad_connection) else (do
      endpoint ← gets (λ s. env.endpoint s.trace hdl)
      colink_ip ← gets (λ s. colink_of s.options.metadata)
      modify (λ s. record s {
        options = record s.options { metadata = emplace "COLINK" "" s.options.metadata };
      })
      options ← gets (λ s. s.options)
      user ← gets (λ s. logged_in_user s.clients)
      send_json env hdl (
          Types.login_request user.0 user.1 options.mac_addr options.ip_addrs
            (link_type endpoint colink_ip)))

  -- A handler call of `handle_connection_closed`: skipped if the handler is not set, and what it
  -- throws is logged.
  unfoldable pub quiet_call : HandlerCall → ServerAction Unit
  quiet_call call = do
    handled ← gets (λ s. s.handlers (handler_of call))
    if handled then try_catch (call_handler env call) (λ _. pure tt) else pure tt

  -- The connection graph's part of `handle_connection_closed`.
  unfoldable pub leave_graph : Bool → ServerAction Unit
  leave_graph false = pure tt
  leave_graph true = do
    modify (count_by decrement)
    last ← gets (λ s. is_nat 0 (subscription_count s))
    if last then quiet_call (Types.on_subscribe_connection_graph false) else pure tt

  -- `handle_connection_closed` from where the client is found and erased.
  unfoldable pub close_client : ℕ → ClientInfo → ServerAction Unit
  close_client hdl client = do
    modify (λ s. record s { clients = erase hdl s.clients })
    for_each client.advertised_channels (λ id. quiet_call (Types.on_client_unadvertise id hdl))
    modify (λ s. record s { client_channels = erase hdl s.client_channels })
    for_each client.subscriptions_by_channel (λ e. quiet_call (Types.on_unsubscribe e.0 hdl))
    names ← gets (λ s. params_of hdl s.client_param_subscriptions)
    modify (λ s. record s { client_param_subscriptions = erase hdl s.client_param_subscriptions })
    unsubscribe_params_without_subscriptions env hdl names
    leave_graph client.subscribed_to_connection_graph

  unfoldable pub handle_connection_closed : ℕ → ServerAction Unit
  handle_connection_closed hdl = do
    client ← gets (λ s. find hdl s.clients)
    elim client [ none ↦ pure tt | some c ↦ close_client hdl c ]

module _ (env : Environment) (json : JsonLibrary) where
  open json use {Json, at, get_string}

  unfoldable pub handle_login : Json → ℕ → ServerAction Unit
  handle_login payload hdl = do
    user_name ← lift (at payload "username") >>= λ j. lift (get_string j)
    user_id ← lift (at payload "userId") >>= λ j. lift (get_string j)
    login env user_name user_id hdl
