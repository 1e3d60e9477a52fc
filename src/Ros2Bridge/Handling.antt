-- ===== src/Ros2Bridge/Handling.antt =====
-- The handlers of services, parameters, assets and messages, and the updates of services and of the graph: what is
-- kept that reads only channels and subscriptions.
use co_bridge.Base.{ℕ, String, List, [], ◌∷◌, Bool, Option, none, some, nat_keys}
use co_bridge.Base.Assoc.{Assoc}
use co_bridge.Base.Action.{Outcome}
use co_bridge.Base.Action.Keeps.{
  Keeps, Keeps-bind, Keeps-if, Keeps-option, Keeps-pure, Keeps-throw, Keeps-gets, Keeps-lift,
  Keeps-modify, Keeps-try_catch,
}
use co_bridge.Parameter.{Parameter}
use co_bridge.Wire.{ServiceResponse}
use co_bridge.Server.Types.{
  ServiceWithoutId, ParameterSubscriptionOperation, subscribe, unsubscribe,
}
use co_bridge.Server.Environment.{Environment, JsonLibrary}
use co_bridge.Server.Parameters.{what_of}
use co_bridge.Server.Requests
use co_bridge.Server.Invariant.Steps
use co_bridge.Server.Invariant.FixedChannels.{Stable-Offers}
use co_bridge.MessageDefinitions.Specs.{Packages}
use co_bridge.MessageDefinitions.FullText.{Search, is_not_found}
use co_bridge.Ros2Bridge.State.{Bridge, BridgeOptions, Ros}
use co_bridge.Ros2Bridge.Topics.{search_result, TopicNamesAndTypes}
use co_bridge.Ros2Bridge.Services
use co_bridge.Ros2Bridge.Services.{ServiceNamesAndTypes}
use co_bridge.Ros2Bridge.Handlers
use co_bridge.Ros2Bridge.Handlers.{as_unsigned}
use co_bridge.Base.Int.{ℤ}
use co_bridge.Ros2Bridge.Quiet.{
  Quiet, Keeps-rethrow_as, Keeps-on_server, Keeps-call_ros, Keeps-request,
}

module _ {P : Bridge → Type 0} (q : Quiet P) (env : Environment) (json : JsonLibrary) (ros : Ros)
    (options : BridgeOptions) where
  Keeps-retrieve_asset :
      (uri : String) (id : ℕ) → Keeps P (Handlers.retrieve_asset env ros options uri id)
  unfolding Handlers.retrieve_asset
  Keeps-retrieve_asset uri id =
      Keeps-if _ _ _ (Keeps-bind _ _ (Keeps-call_ros q ros _) λ u. Keeps-pure _) (Keeps-throw _)

  pub Keeps-fetch_asset :
      (uri : String) (id hdl : ℕ) → Keeps P (Handlers.fetch_asset env ros options uri id hdl)
  unfolding Handlers.fetch_asset Handlers.asset_error Requests.perform
  Keeps-fetch_asset uri id hdl =
      Keeps-bind _ _
        (Keeps-try_catch _ _ (Keeps-retrieve_asset uri id)
          λ x. Keeps-option (what_of x) _ _ (Keeps-throw x) λ w. Keeps-pure _)
        λ response.
          Keeps-request q env json (Requests.send_fetch_asset_response hdl response) λ c. c

  pub Keeps-get_parameters :
      (names : List String) (id : Option String) (hdl : ℕ)
      → Keeps P (Handlers.get_parameters env ros options names id hdl)
  unfolding Handlers.get_parameters Requests.perform
  Keeps-get_parameters names id hdl = Keeps-bind _ _ (Keeps-call_ros q ros _) λ u.
      Keeps-bind _ _ (Keeps-gets _)
        λ params. Keeps-request q env json (Requests.publish_parameter_values hdl params id) λ c. c

  pub Keeps-set_parameters :
      (ps : List Parameter) (id : Option String) (hdl : ℕ)
      → Keeps P (Handlers.set_parameters env ros options ps id hdl)
  unfolding Handlers.set_parameters
  Keeps-set_parameters ps id hdl =
      Keeps-bind _ _ (Keeps-call_ros q ros _)
        λ u. Keeps-option id _ _ (Keeps-pure tt) λ i. Keeps-get_parameters _ (some i) hdl

  pub Keeps-subscribe_parameters :
      (names : List String) (op : ParameterSubscriptionOperation) (hdl : ℕ)
      → Keeps P (Handlers.subscribe_parameters env ros options names op hdl)
  unfolding Handlers.subscribe_parameters
  Keeps-subscribe_parameters names subscribe hdl = Keeps-call_ros q ros _
  Keeps-subscribe_parameters names unsubscribe hdl = Keeps-call_ros q ros _

  pub Keeps-parameter_updates :
      (ps : List Parameter) → Keeps P (Handlers.parameter_updates env ros options ps)
  unfolding Handlers.parameter_updates Requests.perform
  Keeps-parameter_updates ps = Keeps-request q env json (Requests.update_parameter_values ps) λ c. c

  pub Keeps-update_connection_graph :
      (topics : TopicNamesAndTypes)
      → Keeps P (Handlers.update_connection_graph env ros options topics)
  unfolding Handlers.update_connection_graph Requests.perform
  Keeps-update_connection_graph topics =
      Keeps-bind _ _ (Keeps-gets _)
        λ calls. Keeps-request q env json (Requests.update_connection_graph _ _ _) λ c. c

  pub Keeps-subscribe_connection_graph :
      (wanted : Bool) → Keeps P (Handlers.subscribe_connection_graph env ros options wanted)
  unfolding Handlers.subscribe_connection_graph
  Keeps-subscribe_connection_graph wanted = Keeps-bind _ _ (Keeps-modify _ λ b. q.wanted _ b) λ u.
      Keeps-bind _ _ (Keeps-gets _)
        λ topics. Keeps-if wanted _ _ (Keeps-update_connection_graph topics) (Keeps-pure tt)

  pub Keeps-ros_message_handler :
      (id hdl : ℕ) (bytes : List ℕ) (timestamp : ℕ)
      → Keeps P (Handlers.ros_message_handler env ros options id hdl bytes timestamp)
  unfolding Handlers.ros_message_handler Requests.perform
  Keeps-ros_message_handler id hdl bytes timestamp =
      Keeps-bind _ _ (Keeps-gets _)
        λ now. Keeps-request q env json (Requests.send_message hdl id _ bytes) λ c. c

  pub Keeps-clock_received :
      (nanoseconds : ℤ) → Keeps P (Handlers.clock_received env ros options nanoseconds)
  unfolding Handlers.clock_received Requests.perform
  Keeps-clock_received nanoseconds =
      Keeps-request q env json (Requests.broadcast_time (as_unsigned nanoseconds)) λ c. c

  module _ (packages : Packages) (fuel : ℕ) where
    Keeps-client_for :
        (id : ℕ) (service : ServiceWithoutId)
        → Keeps P (Services.client_for env ros options packages fuel id service)
    unfolding Services.client_for
    Keeps-client_for id service = Keeps-bind _ _ (Keeps-gets _) λ found.
        Keeps-option found _ _
          (Keeps-bind _ _ (Keeps-try_catch _ _ (Keeps-call_ros q ros _) (Keeps-rethrow_as P _))
            λ u. Keeps-bind _ _ (Keeps-modify _ λ b. q.clients _ b) λ v. Keeps-pure _)
          λ client. Keeps-pure client

    pub Keeps-service_request :
        (r : ServiceResponse) (hdl : ℕ)
        → Keeps P (Services.service_request env ros options packages fuel r hdl)
    unfolding Services.service_request Services.request_service
    Keeps-service_request r hdl = Keeps-bind _ _ (Keeps-gets _) λ found.
        Keeps-option found _ _ (Keeps-throw _) λ service.
          Keeps-bind _ _ (Keeps-client_for r.service_id service) λ client.
            Keeps-bind _ _ (Keeps-gets _)
              λ available. Keeps-if available _ _ (Keeps-call_ros q ros _) (Keeps-throw _)

    pub Keeps-response_received :
        (r : ServiceResponse) (hdl : ℕ) (bytes : List ℕ)
        → Keeps P (Services.response_received env ros options packages fuel r hdl bytes)
    unfolding Services.response_received Requests.perform
    Keeps-response_received r hdl bytes =
        Keeps-request q env json (Requests.send_service_response hdl _) λ c. c

    Keeps-search_result :
        {A : Type 0} (b : Bridge) (o : Option (Outcome A × Search)) → P b → P (search_result b o).1
    Keeps-search_result b none h = h
    Keeps-search_result b (some (o, s)) h = q.definitions s.cache b h

    Keeps-service_for :
        (name service_type : String)
        → Keeps P (Services.service_for env ros options packages fuel name service_type)
    unfolding Services.service_for Services.full_srv_text Services.undescribed
    Keeps-service_for name service_type =
        Keeps-try_catch _ _
          (Keeps-bind _ _ (record { at = λ b h. Keeps-search_result b _ h }) λ m. Keeps-pure _)
          λ x.
            Keeps-if (is_not_found x) _ _ (Keeps-pure _)
              (Keeps-option (what_of x) _ _ (Keeps-throw x) λ w. Keeps-pure none)

    Keeps-services_to_add :
        (advertised : Assoc ℕ ServiceWithoutId) (services : ServiceNamesAndTypes)
        → Keeps P (Services.services_to_add env ros options packages fuel advertised services)
    unfolding Services.services_to_add
    Keeps-services_to_add advertised [] = Keeps-pure []
    Keeps-services_to_add advertised ((name, datatypes) ∷ rest) =
        let others = Keeps-services_to_add advertised rest in
        Keeps-bind _ _ (Keeps-lift _) λ passed_over. Keeps-if passed_over _ _ others (
          Keeps-bind _ _ (Keeps-service_for name _)
            λ service. Keeps-bind _ _ others λ ds. Keeps-pure _)

    pub Keeps-update_advertised_services :
        Keeps P (Services.update_advertised_services env ros options packages fuel)
    unfolding Services.update_advertised_services Services.advertise_services
    Keeps-update_advertised_services = Keeps-bind _ _ (Keeps-gets _) λ running.
        Keeps-bind _ _ (Keeps-gets _) λ services. Keeps-if _ _ _ (Keeps-pure tt) (
          Keeps-bind _ _ (Keeps-gets _) λ stale.
            Keeps-bind _ _ (Keeps-modify _ λ b. q.services _ b) λ u.
              Keeps-bind _ _
                (Keeps-on_server q _
                  λ channels next. Steps.Keeps-remove_services env json (Stable-Offers env) stale)
                λ v. Keeps-bind _ _ (Keeps-gets _) λ advertised.
                  Keeps-bind _ _ (Keeps-services_to_add advertised services) λ added.
                    Keeps-bind _ _
                      (Keeps-on_server q _ λ channels next.
                        Steps.Keeps-add_services env json (Stable-Offers env) added)
                      λ ids. Keeps-modify _ λ b. q.services _ b)
