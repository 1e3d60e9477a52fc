-- ===== src/Server/Environment.antt =====
-- What the server calls and does not implement: the WebSocket library, the handlers that a bridge
-- registers, the regular expressions, the clock and the JSON library. Each is a parameter. Its
-- answers may depend on all that was sent and called before. Then the member functions that send.
use co_bridge.Base.{ℕ, String, List, ◌∷◌, Bool, Option, none, some, if◌then◌else◌}
use co_bridge.Base.Errors.{Exception, standard, bad_connection, bad_function_call}
use co_bridge.Base.Action.{Outcome, returned, thrown}
use co_bridge.Parameter.{Parameter}
use co_bridge.Server.Types
use co_bridge.Server.Types.{
  ServerAction, Event, sent, called, Outgoing, StatusLevel, StatusText, Handler, HandlerCall,
}

pub record Environment : Type 0 where
  -- whether `get_con_from_hdl` finds the connection of a handle
  pub connected : List Event → ℕ → Bool
  -- `get_remote_endpoint`, or "(unknown)"
  pub endpoint : List Event → ℕ → String
  -- the exception that a call of a handler ends with, if any
  pub answer : List Event → HandlerCall → Option Exception
  -- `std::regex_match(name, regex)`
  pub regex_match : String → String → Bool
  -- nanoseconds of the high resolution clock
  pub now : List Event → ℕ
  -- `get_requested_subprotocols`
  pub requested_subprotocols : ℕ → List String

-- The calls of nlohmann::json. `get_string`, `get_uint32`, `get_strings` and `get_parameters` are
-- `get<T>()`; `elements` is what a range-for loop goes through.
pub record JsonLibrary : Type 1 where
  pub Json : Type 0
  pub parse : String → Outcome Json
  pub at : Json → String → Outcome Json
  pub find_member : Json → String → Option Json
  pub get_string : Json → Outcome String
  pub get_uint32 : Json → Outcome ℕ
  pub get_strings : Json → Outcome (List String)
  pub get_parameters : Json → Outcome (List Parameter)
  pub elements : Json → List Json

abbrev pub handler_of : HandlerCall → Handler
handler_of (Types.on_subscribe c h) = Types.subscribe_handler
handler_of (Types.on_unsubscribe c h) = Types.unsubscribe_handler
handler_of (Types.on_client_unadvertise c h) = Types.client_unadvertise_handler
handler_of (Types.on_client_advertise a h) = Types.client_advertise_handler
handler_of (Types.on_client_message m h) = Types.client_message_handler
handler_of (Types.on_parameter_request n i h) = Types.parameter_request_handler
handler_of (Types.on_parameter_change p i h) = Types.parameter_change_handler
handler_of (Types.on_parameter_subscription n o h) = Types.parameter_subscription_handler
handler_of (Types.on_service_request r h) = Types.service_request_handler
handler_of (Types.on_subscribe_connection_graph b) = Types.subscribe_connection_graph_handler
handler_of (Types.on_fetch_asset u i h) = Types.fetch_asset_handler

abbrev outcome_of : Option Exception → Outcome Unit
outcome_of none = returned tt
outcome_of (some x) = thrown x

module _ (env : Environment) where
  -- `_handlers.h(...)`: an empty `std::function` throws, a set one is called.
  unfoldable pub call_handler : HandlerCall → ServerAction Unit
  call_handler call s =
      if s.handlers (handler_of call)
      then (outcome_of (env.answer s.trace call), record s { trace = called call ∷ s.trace })
      else (thrown (standard bad_function_call), s)

  -- `get_con_from_hdl(hdl)` and `send` on what it returns: no connection is an exception.
  unfoldable pub connection_send : ℕ → Outgoing → ServerAction Unit
  connection_send hdl msg s =
      if env.connected s.trace hdl
      then (returned tt, record s { trace = sent hdl msg ∷ s.trace })
      else (thrown (standard bad_connection), s)

  -- `send_json`, `send_raw_json` and `send_binary`: the exception is caught and logged.
  unfoldable pub send_json : ℕ → Outgoing → ServerAction Unit
  send_json hdl msg s =
      if env.connected s.trace hdl
      then (returned tt, record s { trace = sent hdl msg ∷ s.trace })
      else (returned tt, s)

  -- `send_status_and_log_msg`
  unfoldable pub send_status : ℕ → StatusLevel → StatusText → ServerAction Unit
  unfolding send_json
  send_status hdl level text = send_json hdl (Types.status level text)
