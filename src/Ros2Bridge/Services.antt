-- ===== src/Ros2Bridge/Services.antt =====
-- CoBridge::update_advertised_services and service_request.
use co_bridge.Base.{
  ℕ, String, List, [], ◌∷◌, Bool, true, false, not, ◌||◌, Option, none, some, ◌==◌, nat_keys,
  text_keys, contains, map, if◌then◌else◌,
}
use co_bridge.Base.Assoc.{Assoc, find, emplace}
use co_bridge.Base.Errors.{
  Exception, with_id, service_error, service_missing, service_client_failed, service_unavailable,
}
use co_bridge.Base.Action.{
  Outcome, returned, thrown, pure, throw, gets, lift, modify, try_catch, ◌>>=◌, ◌>>◌,
}
use co_bridge.Wire.{ServiceResponse}
use co_bridge.Server.Types.{ServiceWithoutId}
use co_bridge.Server.Environment.{Environment}
use co_bridge.Server.Channels.{add_services, remove_services}
use co_bridge.Server.Frames.{send_service_response}
use co_bridge.Server.Parameters.{what_of}
use co_bridge.Server.Subscriptions.{is_whitelisted}
use co_bridge.MessageDefinitions.Specs.{Packages}
use co_bridge.MessageDefinitions.FullText.{FormatAndText, get_full_srv_text, is_not_found}
use co_bridge.Ros2Bridge.State.{
  Bridge, BridgeAction, BridgeOptions, Ros, on_server, call_ros, create_client, send_request,
}
use co_bridge.Ros2Bridge.Subscriptions.{rethrow_as}
use co_bridge.Ros2Bridge.Topics.{is_hidden_topic_or_service, search_result, erase_keys}

unfoldable pub has_capability : BridgeOptions → String → Bool
unfolding contains
has_capability options capability = contains capability options.capabilities

abbrev pub ServiceNamesAndTypes : Type 0
ServiceNamesAndTypes = List (String × List String)

-- The ids of the services that are not in the graph any more.
unfoldable pub stale_services : List String → Assoc ℕ ServiceWithoutId → List ℕ
stale_services names [] = []
stale_services names ((id, service) ∷ rest) =
    let ids = stale_services names rest in if contains service.name names then ids else id ∷ ids

unfoldable pub has_service : String → Assoc ℕ ServiceWithoutId → Bool
has_service name [] = false
has_service name ((id, service) ∷ rest) = service.name == name || has_service name rest

-- `datatypes.front()`; ROS gives each service a type.
abbrev pub front : List String → String
front [] = ""
front (d ∷ ds) = d

-- `service_definition[key].second`, which is empty for a key that is not there.
abbrev pub text_at : String → Assoc String FormatAndText → String
text_at key m = elim (find key m) [ none ↦ "" | some p ↦ p.1 ]

abbrev pub described : String → String → Assoc String FormatAndText → ServiceWithoutId
described name service_type m = record {
  name = name;
  service_type = service_type;
  request_schema = text_at "request" m;
  response_schema = text_at "response" m;
}

unfoldable pub undescribed : String → String → Exception → BridgeAction (Option ServiceWithoutId)
undescribed name service_type x =
    if is_not_found x
    then pure (some (described name service_type []))
    else elim (what_of x) [ none ↦ throw x | some w ↦ pure none ]

abbrev pub with_service : Option ServiceWithoutId → List ServiceWithoutId → List ServiceWithoutId
with_service none ds = ds
with_service (some d) ds = d ∷ ds

unfoldable pub store_services :
    List ℕ → List ServiceWithoutId → Assoc ℕ ServiceWithoutId → Assoc ℕ ServiceWithoutId
store_services (id ∷ ids) (d ∷ ds) m = store_services ids ds (emplace id d m)
store_services [] ds m = m
store_services (id ∷ ids) [] m = m

module _ (env : Environment) (ros : Ros) (options : BridgeOptions) (packages : Packages)
    (fuel : ℕ) where
  unfoldable pub full_srv_text : String → BridgeAction (Assoc String FormatAndText)
  unfolding get_full_srv_text
  full_srv_text service_type b =
      search_result b (get_full_srv_text packages fuel service_type b.definitions)

  unfoldable pub service_for : String → String → BridgeAction (Option ServiceWithoutId)
  unfolding full_srv_text undescribed
  service_for name service_type =
      try_catch (full_srv_text service_type >>= λ m. pure (some (described name service_type m)))
        (undescribed name service_type)

  -- Whether a service is passed over: it is advertised, hidden or not on the whitelist.
  unfoldable pub is_passed_over : Assoc ℕ ServiceWithoutId → String → Outcome Bool
  unfolding has_service is_hidden_topic_or_service is_whitelisted
  is_passed_over advertised name =
      let unlisted = not (is_whitelisted env name options.service_whitelist_patterns) in
      if has_service name advertised
      then returned true
      else if options.include_hidden
      then returned unlisted
      else elim (is_hidden_topic_or_service name) [
        | returned hidden ↦ returned (hidden || unlisted)
        | thrown x ↦ thrown x
      ]

  unfoldable pub services_to_add :
      Assoc ℕ ServiceWithoutId → ServiceNamesAndTypes → BridgeAction (List ServiceWithoutId)
  unfolding is_passed_over service_for
  services_to_add advertised [] = pure []
  services_to_add advertised ((name, datatypes) ∷ rest) =
      let others = services_to_add advertised rest in
      lift (is_passed_over advertised name) >>= λ passed_over.
      if passed_over
      then others
      else service_for name (front datatypes) >>= λ service.
          others >>= λ ds. pure (with_service service ds)

  -- From the removal of stale services on.
  unfoldable pub advertise_services : ServiceNamesAndTypes → BridgeAction Unit
  unfolding stale_services erase_keys on_server services_to_add store_services
  advertise_services services = do
    stale ← gets (λ b. stale_services (map (λ p. p.0) services) b.advertised_services)
    modify (λ b. record b { advertised_services = erase_keys stale b.advertised_services })
    on_server (remove_services env stale)
    advertised ← gets (λ b. b.advertised_services)
    added ← services_to_add advertised services
    ids ← on_server (add_services env added)
    modify (λ b. record b { advertised_services = store_services ids added b.advertised_services })

  unfoldable pub update_advertised_services : BridgeAction Unit
  unfolding advertise_services has_capability
  update_advertised_services = do
    running ← gets (λ b. ros.running b.ros_calls)
    services ← gets (λ b. ros.service_names_and_types b.ros_calls)
    if not running || not (has_capability options "services")
        then pure tt
        else advertise_services services

  -- `_service_clients` holds the name of the service that the client was made for.
  unfoldable pub client_for : ℕ → ServiceWithoutId → BridgeAction String
  unfolding call_ros
  client_for service_id service = do
    found ← gets (λ (b : Bridge). find service_id b.service_clients)
    elim found [
      | some client ↦ pure client
      | none ↦ (do
        try_catch (call_ros ros (create_client service.name service.service_type)) (
            rethrow_as
              (λ w. with_id service_error service_id (service_client_failed service.name w)))
        modify
            (λ b. record b { service_clients = emplace service_id service.name b.service_clients })
        pure service.name)
    ]

  -- From the service that was found on.
  unfoldable pub request_service : ServiceResponse → ℕ → ServiceWithoutId → BridgeAction Unit
  unfolding client_for call_ros
  request_service request hdl service = do
    client ← client_for request.service_id service
    available ← gets (λ b. ros.service_available b.ros_calls client)
    if available
        then call_ros ros (send_request client request hdl)
        else throw (with_id service_error request.service_id (service_unavailable service.name))

  unfoldable pub service_request : ServiceResponse → ℕ → BridgeAction Unit
  unfolding request_service
  service_request request hdl = do
    found ← gets (λ (b : Bridge). find request.service_id b.advertised_services)
    elim found [
      | none ↦ throw (with_id service_error request.service_id (service_missing request.service_id))
      | some service ↦ request_service request hdl service
    ]

  -- The callback of a request, with the bytes of the response.
  unfoldable pub response_received : ServiceResponse → ℕ → List ℕ → BridgeAction Unit
  unfolding on_server
  response_received request hdl response =
      on_server (send_service_response env hdl (record request { serv_data = response }))
