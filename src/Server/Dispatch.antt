-- ===== src/Server/Dispatch.antt =====
-- Messages from clients: `handle_message`, `handle_text_message` and `handle_binary_message`.
mod Hashes
pub mod Operations
pub mod Failures
unfoldable pub use Hashes.*
use co_bridge.Base.{
  ℕ, ◌*◌, String, List, [], ◌∷◌, Bool, true, not, Option, none, some, if◌then◌else◌, ltb, ◌==◌,
  length, drop, contains, nat_keys, text_keys,
}
use co_bridge.Base.Assoc.{Assoc, find, has_key}
use co_bridge.Base.Errors.{Exception, with_id, standard, unknown, unknown_operation, service_error}
use co_bridge.Base.Action.{pure, throw, gets, lift, ◌>>=◌, ◌>>◌, try_catch}
use co_bridge.Wire.{read_uint32_le, read_response}
use co_bridge.Server.Types
use co_bridge.Server.Types.{ServerAction, Handler}
use co_bridge.Server.Environment.{Environment, JsonLibrary, call_handler, send_status}
use co_bridge.Server.Parameters.{
  what_of, handle_get_parameters, handle_set_parameters, handle_subscribe_parameter_updates,
  handle_unsubscribe_parameter_updates,
}
use co_bridge.Server.Graph.{handle_subscribe_connection_graph, handle_unsubscribe_connection_graph}
use co_bridge.Server.Sessions.{handle_login}
use co_bridge.Server.Subscriptions.{
  handle_subscribe, handle_unsubscribe, handle_advertise, handle_unadvertise, handle_fetch_asset,
}

-- `CAPABILITY_BY_CLIENT_OPERATION`
abbrev pub capability_by_client_operation : Assoc String String
capability_by_client_operation =
    ("advertise", "clientPublish")
    ∷ ("unadvertise", "clientPublish")
    ∷ ("getParameters", "parameters")
    ∷ ("setParameters", "parameters")
    ∷ ("subscribeParameterUpdates", "parametersSubscribe")
    ∷ ("unsubscribeParameterUpdates", "parametersSubscribe")
    ∷ ("subscribeConnectionGraph", "connectionGraph")
    ∷ ("unsubscribeConnectionGraph", "connectionGraph")
    ∷ ("fetchAsset", "assets")
    ∷ []

-- The handler that `has_handler` tests; `none` for LOGIN, which needs none.
abbrev pub handler_for : Operation → Option Handler
handler_for login = none
handler_for subscribe = some Types.subscribe_handler
handler_for unsubscribe = some Types.unsubscribe_handler
handler_for advertise = some Types.client_advertise_handler
handler_for unadvertise = some Types.client_unadvertise_handler
handler_for get_parameters = some Types.parameter_request_handler
handler_for set_parameters = some Types.parameter_change_handler
handler_for subscribe_parameter_updates = some Types.parameter_subscription_handler
handler_for unsubscribe_parameter_updates = some Types.parameter_subscription_handler
handler_for subscribe_connection_graph = some Types.subscribe_connection_graph_handler
handler_for unsubscribe_connection_graph = some Types.subscribe_connection_graph_handler
handler_for fetch_asset = some Types.fetch_asset_handler

-- `has_handler`
unfoldable pub has_handler : ℕ → ServerAction Bool
has_handler h = elim (case_of h operations) [
  | none ↦ throw (standard (unknown_operation h))
  | some op ↦ elim (handler_for op) [
    | none ↦ pure true
    | some handler ↦ gets (λ s. s.handlers handler)
  ]
]

unfoldable pub has_capability : String → ServerAction Bool
has_capability c = gets (λ s. contains c s.options.capabilities)

-- The capability that a table asks for under a key, if it asks for one that the server lacks.
unfoldable pub missing_capability : Option String → ServerAction (Option String)
missing_capability none = pure none
missing_capability (some c) = do there ← has_capability c; pure (if there then none else some c)

module _ (env : Environment) (json : JsonLibrary) where
  open json use {Json, parse, at, get_string}

  -- The `switch` of `handle_text_message`.
  unfoldable pub handle_operation : Option Operation → String → Json → ℕ → ServerAction Unit
  handle_operation none op payload hdl =
      send_status env hdl Types.StatusLevel.error (Types.unrecognized_opcode op)
  handle_operation (some login) op payload hdl = handle_login env json payload hdl
  handle_operation (some subscribe) op payload hdl = handle_subscribe env json payload hdl
  handle_operation (some unsubscribe) op payload hdl = handle_unsubscribe env json payload hdl
  handle_operation (some advertise) op payload hdl = handle_advertise env json payload hdl
  handle_operation (some unadvertise) op payload hdl = handle_unadvertise env json payload hdl
  handle_operation (some get_parameters) op payload hdl = handle_get_parameters env json payload hdl
  handle_operation (some set_parameters) op payload hdl = handle_set_parameters env json payload hdl
  handle_operation (some subscribe_parameter_updates) op payload hdl =
      handle_subscribe_parameter_updates env json payload hdl
  handle_operation (some unsubscribe_parameter_updates) op payload hdl =
      handle_unsubscribe_parameter_updates env json payload hdl
  handle_operation (some subscribe_connection_graph) op payload hdl =
      handle_subscribe_connection_graph env hdl
  handle_operation (some unsubscribe_connection_graph) op payload hdl =
      handle_unsubscribe_connection_graph env hdl
  handle_operation (some fetch_asset) op payload hdl = handle_fetch_asset env json payload hdl

  -- The `catch` clauses of `handle_text_message`.
  unfoldable pub report_failure : String → ℕ → Exception → ServerAction Unit
  report_failure op hdl (with_id kind id w) =
      send_status env hdl Types.StatusLevel.error (Types.operation_error_with_id w op id)
  report_failure op hdl (standard w) =
      send_status env hdl Types.StatusLevel.error (Types.operation_error w op)
  report_failure op hdl unknown =
      send_status env hdl Types.StatusLevel.error (Types.operation_failed op)

  unfoldable pub handle_text_message : ℕ → String → ServerAction Unit
  handle_text_message hdl text = do
    payload ← lift (parse text)
    op ← lift (at payload "op") >>= λ j. lift (get_string j)
    missing ← missing_capability (find op capability_by_client_operation)
    elim missing [
      | some c ↦ send_status env hdl Types.StatusLevel.error (Types.capability_missing op c)
      | none ↦ do
        handled ← has_handler (string_hash op)
        if not handled
            then send_status env hdl Types.StatusLevel.error (Types.handler_missing op)
            else try_catch (handle_operation (case_of (string_hash op) operations) op payload hdl)
                (report_failure op hdl)
    ]

module _ (env : Environment) where
  -- The `catch` clauses around the call of `client_message_handler`.
  unfoldable pub report_client_message : ℕ → Exception → ServerAction Unit
  report_client_message hdl (with_id service_error id w) =
      send_status env hdl Types.StatusLevel.error (Types.what_text w)
  report_client_message hdl x = send_status env hdl Types.StatusLevel.error Types.call_failed

  -- MESSAGE_DATA from where the length is tested; `bytes` is the whole frame.
  unfoldable pub handle_client_message : ℕ → List ℕ → ServerAction Unit
  handle_client_message hdl bytes =
      if ltb (length bytes) 5
      then send_status env hdl Types.StatusLevel.error (Types.invalid_message_length (length bytes))
      else (do
        timestamp ← gets (λ s. env.now s.trace)
        entry ← gets (λ s. find hdl s.client_channels)
        elim entry [
          | none ↦ send_status env hdl Types.StatusLevel.error Types.no_advertised_channels
          | some publications ↦
              let channel_id = read_uint32_le (drop 1 bytes) in
              elim (find channel_id publications) [
                | none ↦
                    send_status env hdl Types.StatusLevel.error
                      (Types.channel_not_advertised channel_id)
                | some advertisement ↦
                    try_catch
                      (call_handler env (
                        Types.on_client_message
                          (record {
                            log_time = timestamp;
                            publish_time = timestamp;
                            sequence = 0;
                            advertisement = advertisement;
                            data_length = length bytes;
                            bytes = bytes;
                          })
                          hdl))
                      (report_client_message hdl)
              ]
        ])

  -- SERVICE_CALL_REQUEST. A default `ServiceRequest` has 12 bytes; `read` gets what follows the
  -- opcode, and what it throws goes to `handle_message`.
  unfoldable pub handle_service_call : ℕ → List ℕ → ServerAction Unit
  handle_service_call hdl bytes =
      if ltb (length bytes) 12
      then send_status env hdl Types.StatusLevel.error
          (Types.invalid_service_request_length (length bytes))
      else (do
        request ← lift (read_response (drop 1 bytes))
        known ← gets (λ s. has_key request.service_id s.services)
        if not known
            then send_status env hdl Types.StatusLevel.error
                (Types.service_not_advertised request.service_id)
            else (do
              handled ← gets (λ s. s.handlers Types.service_request_handler)
              if handled then call_handler env (Types.on_service_request request hdl) else pure tt))

  -- `CAPABILITY_BY_CLIENT_BINARY_OPERATION`
  unfoldable pub handle_binary_message : ℕ → List ℕ → ServerAction Unit
  handle_binary_message hdl [] =
      send_status env hdl Types.StatusLevel.error Types.empty_binary_message
  handle_binary_message hdl (op ∷ rest) = do
    missing ← missing_capability (find op ((1, "clientPublish") ∷ (2, "services") ∷ []))
    elim missing [
      | some c ↦ send_status env hdl Types.StatusLevel.error (Types.binary_capability_missing op c)
      | none ↦
          if op == 1
          then (do
            handled ← gets (λ s. s.handlers Types.client_message_handler)
            if handled then handle_client_message hdl (op ∷ rest) else pure tt)
          else if op == 2
          then handle_service_call hdl (op ∷ rest)
          else send_status env hdl Types.StatusLevel.error (Types.unrecognized_binary_opcode op)
    ]

-- A message by its opcode; frames other than TEXT and BINARY are passed over.
pub data Message : Type 0 where
  text_message : String → Message
  binary_message : List ℕ → Message
  other_message : Message

module _ (env : Environment) (json : JsonLibrary) where
  unfoldable pub dispatch_message : ℕ → Message → ServerAction Unit
  dispatch_message hdl (text_message t) = handle_text_message env json hdl t
  dispatch_message hdl (binary_message bytes) = handle_binary_message env hdl bytes
  dispatch_message hdl other_message = pure tt

  -- `handle_message`
  unfoldable pub handle_message : ℕ → Message → ServerAction Unit
  handle_message hdl msg = try_catch (dispatch_message hdl msg) λ x. elim (what_of x) [
    | some w ↦ send_status env hdl Types.StatusLevel.error (Types.what_text w)
    | none ↦ send_status env hdl Types.StatusLevel.error Types.handler_failed
  ]
