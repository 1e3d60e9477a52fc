-- ===== src/Ros1Bridge/Requests.antt =====
-- How service requests fail in the ROS 1 nodelet, and what becomes of services without an answer of the master.
use co_bridge.Base.{ℕ, String, true, false, ◌≡◌, refl, none, some, nat_keys}
use co_bridge.Base.Assoc.{find}
use co_bridge.Base.Errors.{What, with_id, service_error}
use co_bridge.Base.Action.{returned, thrown, ◌>>=◌, pure}
use co_bridge.Wire.{ServiceResponse}
use co_bridge.Server.Types.{ServiceWithoutId}
use co_bridge.Server.Environment.{Environment}
use co_bridge.Ros1Bridge.State.{Nodelet, Master, call_service, ask}
use co_bridge.Ros1Bridge.Services.{reply_to, call, request_service, service_request}

-- The ways in which a request comes to nothing.
pub data IsHopeless (master : Master) (request : ServiceResponse) (s : Nodelet) : Type 0 where
  unknown_service :
      find request.service_id s.advertised_services ≡ none → IsHopeless master request s
  gone :
      (service : ServiceWithoutId)
      → find request.service_id s.advertised_services ≡ some service
      → master.service_exists s.calls service.name ≡ false
      → IsHopeless master request s
  undescribed :
      (service : ServiceWithoutId)
      → find request.service_id s.advertised_services ≡ some service
      → master.service_exists s.calls service.name ≡ true
      → master.service_description service.service_type ≡ returned none
      → IsHopeless master request s
  unanswered :
      (service : ServiceWithoutId) (description : String × String)
      → find request.service_id s.advertised_services ≡ some service
      → master.service_exists s.calls service.name ≡ true
      → master.service_description service.service_type ≡ returned (some description)
      → master.service_reply s.calls service.name request.serv_data ≡ none
      → master.failure s.calls (call_service service.name request) ≡ none
      → IsHopeless master request s

module _ (env : Environment) (master : Master) (request : ServiceResponse) (hdl : ℕ) where
  -- A request for a service that is not advertised, does not exist any more, has no description or does not answer
  -- ends with a service error of the service's id, and the server, with all it sent, is as before.
  pub service_request-fails :
      (s : Nodelet)
      → IsHopeless master request s
      → (w : What) × ((service_request env master request hdl s).0
          ≡ thrown (with_id service_error request.service_id w))
        × ((service_request env master request hdl s).1.server ≡ s.server)
  unfolding service_request request_service call ask reply_to ◌>>=◌ pure
  service_request-fails s (unknown_service f) = rw f (_, refl, refl)
  service_request-fails s (gone service f e) = rw (f, e) (_, refl, refl)
  service_request-fails s (undescribed service f e d) = rw (f, e, d) (_, refl, refl)
  service_request-fails s (unanswered service description f e d r n) =
      rw (f, e, d, r, n) (_, refl, refl)
