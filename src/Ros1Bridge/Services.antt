-- ===== src/Ros1Bridge/Services.antt =====
-- update_advertised_services and service_request of the ROS 1 nodelet.
use Prim.Native.String.{◌++◌ as append}
use co_bridge.Base.{
  ℕ, String, List, [], ◌∷◌, Option, none, some, nat_keys, text_keys, if◌then◌else◌,
}
use co_bridge.Base.Assoc.{Assoc, find}
use co_bridge.Base.Errors.{Exception, with_id, service_error, service_missing, text}
use co_bridge.Base.Action.{Outcome, pure, throw, gets, lift, modify, try_catch, ◌>>=◌, ◌>>◌}
use co_bridge.Wire.{ServiceResponse}
use co_bridge.Server.Types.{ServiceWithoutId}
use co_bridge.Server.Environment.{Environment}
use co_bridge.Server.Channels.{add_services, remove_services}
use co_bridge.Server.Frames.{send_service_response}
use co_bridge.Server.Parameters.{what_of}
use co_bridge.Ros2Bridge.Topics.{erase_keys}
use co_bridge.Ros2Bridge.Services.{stale_services, has_service, with_service, store_services}
use co_bridge.Ros1Bridge.State.{Nodelet, NodeletAction, Master, call_service, ask, on_server}

-- A service with the schemas of its request and its response, which are empty without a description.
abbrev pub described : String → String → Option (String × String) → ServiceWithoutId
described name service_type none = record {
  name = name;
  service_type = service_type;
  request_schema = "";
  response_schema = "";
}
described name service_type (some (request, response)) = record {
  name = name;
  service_type = service_type;
  request_schema = request;
  response_schema = response;
}

-- The handler of std::exception: the service is passed over.
abbrev pub no_service : Exception → NodeletAction (Option ServiceWithoutId)
no_service x = elim (what_of x) [ none ↦ throw x | some w ↦ pure none ]

abbrev pub service_failed : {A : Type 0} → ServiceResponse → String → NodeletAction A
service_failed request message = throw (with_id service_error request.service_id (text message))

module _ (env : Environment) (master : Master) where
  unfoldable pub service_for : String → NodeletAction (Option ServiceWithoutId)
  service_for name =
      try_catch
        (gets (λ s. master.service_type s.calls name) >>= λ (answer : Outcome String).
          lift answer >>= λ service_type.
          lift (master.service_description service_type) >>= λ description.
          pure (some (described name service_type description)))
        no_service

  unfoldable pub services_to_add :
      Assoc ℕ ServiceWithoutId → List String → NodeletAction (List ServiceWithoutId)
  unfolding has_service service_for
  services_to_add advertised [] = pure []
  services_to_add advertised (name ∷ names) =
      let others = services_to_add advertised names in
      if has_service name advertised
      then others
      else service_for name >>= λ service. others >>= λ ds. pure (with_service service ds)

  -- From the removal of stale services on.
  unfoldable pub advertise_services : List String → List ℕ → NodeletAction Unit
  unfolding on_server services_to_add store_services
  advertise_services names stale = do
    on_server (remove_services env stale)
    advertised ← gets (λ (s : Nodelet). s.advertised_services)
    added ← services_to_add advertised names
    ids ← on_server (add_services env added)
    modify (λ s. record s { advertised_services = store_services ids added s.advertised_services })

  unfoldable pub update_advertised_services : List String → NodeletAction Unit
  unfolding stale_services erase_keys advertise_services
  update_advertised_services names = do
    stale ← gets (λ (s : Nodelet). stale_services names s.advertised_services)
    modify (λ s. record s { advertised_services = erase_keys stale s.advertised_services })
    advertise_services names stale

  unfoldable pub reply_to : ServiceResponse → ℕ → String → Option (List ℕ) → NodeletAction Unit
  unfolding on_server
  reply_to request hdl about none = service_failed request (append "Failed to call service " about)
  reply_to request hdl about (some response) =
      on_server (send_service_response env hdl (record request { serv_data = response }))

  -- From the call of a service whose type is described on.
  unfoldable pub call : ServiceResponse → ℕ → ServiceWithoutId → NodeletAction Unit
  unfolding ask reply_to
  call request hdl service = do
    reply ← gets (λ s. master.service_reply s.calls service.name request.serv_data)
    ask master (call_service service.name request)
    reply_to request hdl (append service.name (append "(" (append service.service_type ")"))) reply

  -- From the service that was found on.
  unfoldable pub request_service : ServiceResponse → ℕ → ServiceWithoutId → NodeletAction Unit
  unfolding call
  request_service request hdl service = do
    exists ← gets (λ s. master.service_exists s.calls service.name)
    if exists
        then (do
          description ← lift (master.service_description service.service_type)
          elim description [
            | none ↦ service_failed request (
                append "Failed to retrieve type information for service "
                  (append service.name (append "(" (append service.service_type ")"))))
            | some d ↦ call request hdl service
          ])
        else service_failed request (append "Service '" (append service.name "' does not exist"))

  unfoldable pub service_request : ServiceResponse → ℕ → NodeletAction Unit
  unfolding request_service
  service_request request hdl = do
    found ← gets (λ (s : Nodelet). find request.service_id s.advertised_services)
    elim found [
      | none ↦ throw (with_id service_error request.service_id (service_missing request.service_id))
      | some service ↦ request_service request hdl service
    ]
