-- ===== src/Server/Invariant/Messages.antt =====
-- A stable predicate through every message from a client, every request and every run.
use co_bridge.Base.{
  ℕ, String, List, [], ◌∷◌, Option, none, some, drop, ltb, length, Option-cases, inl, inr, nat_keys,
  text_keys,
}
use co_bridge.Base.Assoc.{find}
use co_bridge.Base.Errors.{
  Exception, with_id, standard, unknown, channel_error, client_channel_error, service_error,
}
use co_bridge.Base.Action.{◌>>=◌}
use co_bridge.Base.Action.Keeps.{
  Keeps, Keeps-bind, Keeps-gets, Keeps-pure, Keeps-try_catch, Keeps-option, Keeps-lift, Keeps-if,
  Keeps-throw, keeps_rules,
}
use co_bridge.Wire.{read_uint32_le}
use co_bridge.Server.Types.{Server}
use co_bridge.Server.Environment.{Environment, JsonLibrary, send_status}
use co_bridge.Server.Types
use co_bridge.Server.Invariant.Sends.{sends_rules}
use co_bridge.Server.Invariant.Clients.{Keeps-client_at}
use co_bridge.Server.Invariant.Steps
use co_bridge.Server.Invariant.Steps.{Stable}
use co_bridge.Server.Parameters
use co_bridge.Server.Parameters.{what_of}
use co_bridge.Server.Sessions
use co_bridge.Server.Subscriptions
use co_bridge.Server.Frames
use co_bridge.Server.Dispatch
use co_bridge.Server.Requests
use co_bridge.Server.Requests.{Request, perform, run}

-- The requests of the bridge to offer other channels.
abbrev pub ChangesChannels : Request → Type 0
ChangesChannels (Requests.add_channels cs) = Unit
ChangesChannels (Requests.remove_channels ids) = Unit
ChangesChannels _ = ⊥

module _ {C : Type 0} (env : Environment) (json : JsonLibrary) {P : Server → Type 0}
    (st : Stable C env P) where
  open json use {Json, at, find_member, get_string}

  Keeps-login : (payload : Json) (hdl : ℕ) → Keeps P (Sessions.handle_login env json payload hdl)
  unfolding Sessions.handle_login
  Keeps-login payload hdl = search (keeps_rules, st.login) depth 12

  Keeps-subscribe :
      (payload : Json) (hdl : ℕ) → Keeps P (Subscriptions.handle_subscribe env json payload hdl)
  unfolding Subscriptions.handle_subscribe
  Keeps-subscribe payload hdl = search (keeps_rules, Keeps-client_at, st.subscribe_one) depth 16

  Keeps-unsubscribe :
      (payload : Json) (hdl : ℕ) → Keeps P (Subscriptions.handle_unsubscribe env json payload hdl)
  unfolding Subscriptions.handle_unsubscribe
  Keeps-unsubscribe payload hdl = search (keeps_rules, Keeps-client_at, st.unsubscribe_one) depth 16

  Keeps-advertise_one :
      (is_first : co_bridge.Base.Bool) (hdl : ℕ) (chan : Json)
      → Keeps P (Subscriptions.advertise_one env json is_first hdl chan)
  unfolding Subscriptions.advertise_one
  Keeps-advertise_one is_first hdl chan =
      search (keeps_rules, sends_rules, st.untraced, st.advertise_channel) depth 24

  Keeps-advertise :
      (payload : Json) (hdl : ℕ) → Keeps P (Subscriptions.handle_advertise env json payload hdl)
  unfolding Subscriptions.handle_advertise
  Keeps-advertise payload hdl =
      search (keeps_rules, Steps.Keeps-new_publications env json st, Keeps-advertise_one) depth 12

  Keeps-unadvertise :
      (payload : Json) (hdl : ℕ) → Keeps P (Subscriptions.handle_unadvertise env json payload hdl)
  unfolding Subscriptions.handle_unadvertise
  Keeps-unadvertise payload hdl =
      search (keeps_rules, sends_rules, st.untraced, st.unadvertise_one) depth 14

  Keeps-fetch_asset :
      (payload : Json) (hdl : ℕ) → Keeps P (Subscriptions.handle_fetch_asset env json payload hdl)
  unfolding Subscriptions.handle_fetch_asset
  Keeps-fetch_asset payload hdl = search (keeps_rules, sends_rules, st.untraced) depth 14

  Keeps-request_id_of : (payload : Json) → Keeps P (Parameters.request_id_of env json payload)
  unfolding Parameters.request_id_of
  Keeps-request_id_of payload =
      Keeps-option (find_member payload "id") _ _ (Keeps-pure _) λ j. search keeps_rules

  Keeps-get_parameters :
      (payload : Json) (hdl : ℕ) → Keeps P (Parameters.handle_get_parameters env json payload hdl)
  unfolding Parameters.handle_get_parameters
  Keeps-get_parameters payload hdl =
      search (keeps_rules, sends_rules, st.untraced, Keeps-request_id_of) depth 14

  Keeps-set_parameters :
      (payload : Json) (hdl : ℕ) → Keeps P (Parameters.handle_set_parameters env json payload hdl)
  unfolding Parameters.handle_set_parameters
  Keeps-set_parameters payload hdl =
      search (keeps_rules, sends_rules, st.untraced, Keeps-request_id_of) depth 14

  Keeps-subscribe_updates :
      (payload : Json) (hdl : ℕ)
      → Keeps P (Parameters.handle_subscribe_parameter_updates env json payload hdl)
  unfolding Parameters.handle_subscribe_parameter_updates
  Keeps-subscribe_updates payload hdl =
      search (keeps_rules, Steps.Keeps-subscribe_parameters env json st) depth 9

  Keeps-unsubscribe_updates :
      (payload : Json) (hdl : ℕ)
      → Keeps P (Parameters.handle_unsubscribe_parameter_updates env json payload hdl)
  unfolding Parameters.handle_unsubscribe_parameter_updates
  Keeps-unsubscribe_updates payload hdl =
      search (keeps_rules, Steps.Keeps-unsubscribe_parameters env json st) depth 9

  Keeps-operation :
      (o : Option Dispatch.Operation) (op : String) (payload : Json) (hdl : ℕ)
      → Keeps P (Dispatch.handle_operation env json o op payload hdl)
  unfolding Dispatch.handle_operation
  Keeps-operation none op payload hdl = search (sends_rules, st.untraced)
  Keeps-operation (some Dispatch.login) op payload hdl = Keeps-login payload hdl
  Keeps-operation (some Dispatch.subscribe) op payload hdl = Keeps-subscribe payload hdl
  Keeps-operation (some Dispatch.unsubscribe) op payload hdl = Keeps-unsubscribe payload hdl
  Keeps-operation (some Dispatch.advertise) op payload hdl = Keeps-advertise payload hdl
  Keeps-operation (some Dispatch.unadvertise) op payload hdl = Keeps-unadvertise payload hdl
  Keeps-operation (some Dispatch.get_parameters) op payload hdl = Keeps-get_parameters payload hdl
  Keeps-operation (some Dispatch.set_parameters) op payload hdl = Keeps-set_parameters payload hdl
  Keeps-operation (some Dispatch.subscribe_parameter_updates) op payload hdl =
      Keeps-subscribe_updates payload hdl
  Keeps-operation (some Dispatch.unsubscribe_parameter_updates) op payload hdl =
      Keeps-unsubscribe_updates payload hdl
  Keeps-operation (some Dispatch.subscribe_connection_graph) op payload hdl = st.subscribe_graph hdl
  Keeps-operation (some Dispatch.unsubscribe_connection_graph) op payload hdl =
      st.unsubscribe_graph hdl
  Keeps-operation (some Dispatch.fetch_asset) op payload hdl = Keeps-fetch_asset payload hdl

  Keeps-report_failure :
      (op : String) (hdl : ℕ) (x : Exception) → Keeps P (Dispatch.report_failure env json op hdl x)
  unfolding Dispatch.report_failure
  Keeps-report_failure op hdl (with_id kind id w) = search (sends_rules, st.untraced)
  Keeps-report_failure op hdl (standard w) = search (sends_rules, st.untraced)
  Keeps-report_failure op hdl unknown = search (sends_rules, st.untraced)

  Keeps-missing_capability : (c : Option String) → Keeps P (Dispatch.missing_capability c)
  unfolding Dispatch.missing_capability Dispatch.has_capability
  Keeps-missing_capability none = search keeps_rules
  Keeps-missing_capability (some c) = Keeps-bind _ _ (Keeps-gets _) λ there. Keeps-pure _

  Keeps-has_handler : (h : ℕ) → Keeps P (Dispatch.has_handler h)
  unfolding Dispatch.has_handler
  Keeps-has_handler h =
      Keeps-option (Dispatch.case_of h Dispatch.operations) _ _ (Keeps-throw _)
        λ op. Keeps-option (Dispatch.handler_for op) _ _ (Keeps-pure _) λ handler. Keeps-gets _

  Keeps-text_message :
      (hdl : ℕ) (text : String) → Keeps P (Dispatch.handle_text_message env json hdl text)
  unfolding Dispatch.handle_text_message
  Keeps-text_message hdl text = Keeps-bind _ _ (Keeps-lift _) λ payload.
      Keeps-bind _ _ (search keeps_rules) λ op.
        Keeps-bind _ _ (Keeps-missing_capability _) λ missing.
          Keeps-option missing _ _
            (search
              (
                keeps_rules, sends_rules, st.untraced, Keeps-has_handler, Keeps-operation,
                Keeps-report_failure,
              )
              depth 12)
            (search (sends_rules, st.untraced))

  Keeps-report_client_message :
      (hdl : ℕ) (x : Exception) → Keeps P (Dispatch.report_client_message env hdl x)
  unfolding Dispatch.report_client_message
  Keeps-report_client_message hdl (with_id channel_error id w) = search (sends_rules, st.untraced)
  Keeps-report_client_message hdl (with_id client_channel_error id w) =
      search (sends_rules, st.untraced)
  Keeps-report_client_message hdl (with_id service_error id w) = search (sends_rules, st.untraced)
  Keeps-report_client_message hdl (standard w) = search (sends_rules, st.untraced)
  Keeps-report_client_message hdl unknown = search (sends_rules, st.untraced)

  Keeps-client_message :
      (hdl : ℕ) (bytes : List ℕ) → Keeps P (Dispatch.handle_client_message env hdl bytes)
  unfolding Dispatch.handle_client_message
  Keeps-client_message hdl bytes =
      Keeps-if (ltb (length bytes) 5)
        (send_status env hdl Types.StatusLevel.error (Types.invalid_message_length (length bytes)))
        _ (search (sends_rules, st.untraced))
        (Keeps-bind _ _ (Keeps-gets _) λ timestamp. Keeps-bind _ _ (Keeps-gets _) λ entry.
          Keeps-option entry _ _ (search (sends_rules, st.untraced)) λ publications.
            Keeps-option (find (read_uint32_le (drop 1 bytes)) publications) _ _
              (search (sends_rules, st.untraced))
              (search (keeps_rules, sends_rules, st.untraced, Keeps-report_client_message)))

  Keeps-service_call :
      (hdl : ℕ) (bytes : List ℕ) → Keeps P (Dispatch.handle_service_call env hdl bytes)
  unfolding Dispatch.handle_service_call
  Keeps-service_call hdl bytes = search (keeps_rules, sends_rules, st.untraced) depth 20

  Keeps-binary_message :
      (hdl : ℕ) (bytes : List ℕ) → Keeps P (Dispatch.handle_binary_message env hdl bytes)
  unfolding Dispatch.handle_binary_message
  Keeps-binary_message hdl [] = search (sends_rules, st.untraced)
  Keeps-binary_message hdl (op ∷ rest) = Keeps-bind _ _ (Keeps-missing_capability _) λ missing.
      Keeps-option missing _ _
        (search (keeps_rules, sends_rules, st.untraced, Keeps-client_message, Keeps-service_call)
          depth 12)
        (search (sends_rules, st.untraced))

  Keeps-dispatch :
      (hdl : ℕ) (m : Dispatch.Message) → Keeps P (Dispatch.dispatch_message env json hdl m)
  unfolding Dispatch.dispatch_message
  Keeps-dispatch hdl (Dispatch.text_message t) = Keeps-text_message hdl t
  Keeps-dispatch hdl (Dispatch.binary_message bytes) = Keeps-binary_message hdl bytes
  Keeps-dispatch hdl Dispatch.other_message = Keeps-pure tt

  pub Keeps-message :
      (hdl : ℕ) (m : Dispatch.Message) → Keeps P (Dispatch.handle_message env json hdl m)
  unfolding Dispatch.handle_message
  Keeps-message hdl m = Keeps-try_catch _ _ (Keeps-dispatch hdl m) λ x.
      Keeps-option (what_of x) _ _ (search (sends_rules, st.untraced))
        (search (sends_rules, st.untraced))

  Keeps-connection_closed : (hdl : ℕ) → Keeps P (Sessions.handle_connection_closed env hdl)
  unfolding Sessions.handle_connection_closed ◌>>=◌
  Keeps-connection_closed hdl = record {
    at = λ s p. elim (Option-cases (find hdl s.clients)) [
      | inl gone ↦ rw gone p
      | inr (c, found) ↦ rw found (st.close_client hdl c s found p)
    ];
  }

  -- Every request keeps a stable predicate, however it ends.
  pub Keeps-perform : (r : Request) → (ChangesChannels r → C) → Keeps P (perform env json r)
  unfolding perform
  Keeps-perform (Requests.connection_opened hdl) may = Steps.Keeps-connection_opened env json st hdl
  Keeps-perform (Requests.connection_closed hdl) may = Keeps-connection_closed hdl
  Keeps-perform (Requests.message hdl m) may = Keeps-message hdl m
  Keeps-perform (Requests.add_channels cs) may =
      search (keeps_rules, Steps.Keeps-add_channels env json st (may tt))
  Keeps-perform (Requests.remove_channels ids) may = st.remove_channels (may tt) ids
  Keeps-perform (Requests.add_services ds) may =
      search (keeps_rules, Steps.Keeps-add_services env json st)
  Keeps-perform (Requests.remove_services ids) may = Steps.Keeps-remove_services env json st ids
  Keeps-perform (Requests.publish_parameter_values hdl ps id) may =
      Steps.Keeps-publish_parameter_values env json st hdl ps id
  Keeps-perform (Requests.update_parameter_values ps) may =
      Steps.Keeps-update_parameter_values env json st ps
  Keeps-perform (Requests.send_message hdl channel timestamp payload) may =
      unfold Frames.send_message in
      Keeps-bind _ _ (Keeps-gets _) λ subscription.
        Keeps-option subscription _ _ (Keeps-pure _) (search (sends_rules, st.untraced))
  Keeps-perform (Requests.broadcast_time timestamp) may =
      unfold Frames.broadcast_time in search (keeps_rules, sends_rules, st.untraced) depth 9
  Keeps-perform (Requests.send_service_response hdl response) may =
      unfold Frames.send_service_response in search (sends_rules, st.untraced)
  Keeps-perform (Requests.send_fetch_asset_response hdl response) may =
      unfold Frames.send_fetch_asset_response in search (sends_rules, st.untraced)
  Keeps-perform (Requests.update_connection_graph p t d) may =
      Steps.Keeps-update_connection_graph env json st p t d

-- So every run keeps it.
pub run-keeps :
    (env : Environment) (json : JsonLibrary) {P : Server → Type 0} (st : Stable Unit env P)
    (rs : List Request) (s : Server)
    → P s
    → P (run env json rs s)
unfolding run
run-keeps env json st [] s p = p
run-keeps env json st (r ∷ rs) s p =
    run-keeps env json st rs _ ((Keeps-perform env json st r (λ c. tt)).at s p)
