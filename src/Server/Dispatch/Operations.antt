-- ===== src/Server/Dispatch/Operations.antt =====
-- The `switch` over hashes, and texts that no `case` knows.
use co_bridge.Base.{ℕ, String, ◌≡◌, refl, none, some, nat_keys, text_keys}
use co_bridge.Base.Assoc.{find}
use co_bridge.Base.Errors.{standard, unknown_operation}
use co_bridge.Base.Action.{returned, thrown, lift, throw, pure, ◌>>=◌}
use co_bridge.Server.Types.{Server}
use co_bridge.Server.Environment.{Environment, JsonLibrary}
use co_bridge.Server.Dispatch.{
  Operation, login, subscribe, unsubscribe, advertise, unadvertise, get_parameters, set_parameters,
  subscribe_parameter_updates, unsubscribe_parameter_updates, subscribe_connection_graph,
  unsubscribe_connection_graph, fetch_asset, utf8, bytes_of, sign_extend, string_hash_impl,
  string_hash, text_of, hash_of, operations, case_of, missing_capability, has_handler,
  capability_by_client_operation, handle_text_message,
}

-- Every operation's text selects the `case` of that operation: no two of the labels collide.
case_of-hash_of : (op : Operation) → case_of (string_hash (text_of op)) operations ≡ some op
unfolding case_of hash_of string_hash string_hash_impl sign_extend bytes_of utf8 text_of
case_of-hash_of login = refl
case_of-hash_of subscribe = refl
case_of-hash_of unsubscribe = refl
case_of-hash_of advertise = refl
case_of-hash_of unadvertise = refl
case_of-hash_of get_parameters = refl
case_of-hash_of set_parameters = refl
case_of-hash_of subscribe_parameter_updates = refl
case_of-hash_of unsubscribe_parameter_updates = refl
case_of-hash_of subscribe_connection_graph = refl
case_of-hash_of unsubscribe_connection_graph = refl
case_of-hash_of fetch_asset = refl

has_handler-unknown :
    (h : ℕ) (s : Server)
    → case_of h operations ≡ none
    → has_handler h s ≡ (thrown (standard (unknown_operation h)), s)
unfolding has_handler throw
has_handler-unknown h s c = rw (c, has_handler) refl

module _ (env : Environment) (json : JsonLibrary) where
  open json use {Json, parse, at, get_string}

  -- A text message that parses, and whose "op" is a text that has the hash of no operation and stands
  -- in no capability table, ends with the exception of `has_handler` before the `switch`, in the state
  -- as it was.
  handle_text_message-unknown :
      (hdl : ℕ) (text op : String) (payload member : Json) (s : Server)
      → parse text ≡ returned payload
      → at payload "op" ≡ returned member
      → get_string member ≡ returned op
      → find op capability_by_client_operation ≡ none
      → case_of (string_hash op) operations ≡ none
      → handle_text_message env json hdl text s
        ≡ (thrown (standard (unknown_operation (string_hash op))), s)
  unfolding handle_text_message ◌>>=◌ lift missing_capability pure
  handle_text_message-unknown hdl text op payload member s p a g f c =
      rw (p, a, g, f, has_handler-unknown (string_hash op) s c) refl
