-- ===== src/Ros2Bridge/Run.antt =====
-- What happens to the ROS 2 bridge and its server, one event after the other: requests of clients at the server, the
-- handlers of the bridge, messages and answers of ROS, and the rounds of the polling thread.
use co_bridge.Base.{ℕ, String, List, [], ◌∷◌, Bool, Option}
use co_bridge.Base.Int.{ℤ}
use co_bridge.Parameter.{Parameter}
use co_bridge.Wire.{ServiceResponse}
use co_bridge.Server.Types.{ClientAdvertisement, ClientMessage, ParameterSubscriptionOperation}
use co_bridge.Server.Environment.{Environment, JsonLibrary}
use co_bridge.Server.Sessions.{handle_connection_opened, handle_connection_closed}
use co_bridge.Server.Dispatch.{Message, handle_message}
use co_bridge.MessageDefinitions.Specs.{Packages}
use co_bridge.Ros2Bridge.State.{Bridge, BridgeAction, BridgeOptions, Ros, on_server}
use co_bridge.Ros2Bridge.Subscriptions
use co_bridge.Ros2Bridge.Publications
use co_bridge.Ros2Bridge.Services
use co_bridge.Ros2Bridge.Handlers
use co_bridge.Ros2Bridge.Polling

pub data Event : Type 0 where
  opened closed : ℕ → Event
  message : ℕ → Message → Event
  subscribe unsubscribe : ℕ → ℕ → Event
  client_advertise : ClientAdvertisement → ℕ → Event
  client_unadvertise : ℕ → ℕ → Event
  client_message : ClientMessage → ℕ → Event
  service_request : ServiceResponse → ℕ → Event
  response_received : ServiceResponse → ℕ → List ℕ → Event
  fetch_asset : String → ℕ → ℕ → Event
  get_parameters : List String → Option String → ℕ → Event
  set_parameters : List Parameter → Option String → ℕ → Event
  subscribe_parameters : List String → ParameterSubscriptionOperation → ℕ → Event
  parameter_updates : List Parameter → Event
  subscribe_connection_graph : Bool → Event
  ros_message : ℕ → ℕ → List ℕ → ℕ → Event
  clock_received : ℤ → Event
  poll_start graph_changed : Event

module _ (env : Environment) (json : JsonLibrary) (ros : Ros) (options : BridgeOptions)
    (packages : Packages) (fuel : ℕ) where
  unfoldable pub perform : Event → BridgeAction Unit
  perform (opened hdl) = on_server (handle_connection_opened env hdl)
  perform (closed hdl) = on_server (handle_connection_closed env hdl)
  perform (message hdl m) = on_server (handle_message env json hdl m)
  perform (subscribe id hdl) = Subscriptions.subscribe ros options id hdl
  perform (unsubscribe id hdl) = Subscriptions.unsubscribe id hdl
  perform (client_advertise a hdl) = Publications.client_advertise env ros options a hdl
  perform (client_unadvertise id hdl) = Publications.client_unadvertise env ros options id hdl
  perform (client_message m hdl) = Publications.client_message env ros options m hdl
  perform (service_request r hdl) = Services.service_request env ros options packages fuel r hdl
  perform (response_received r hdl bytes) =
      Services.response_received env ros options packages fuel r hdl bytes
  perform (fetch_asset uri id hdl) = Handlers.fetch_asset env ros options uri id hdl
  perform (get_parameters names id hdl) = Handlers.get_parameters env ros options names id hdl
  perform (set_parameters ps id hdl) = Handlers.set_parameters env ros options ps id hdl
  perform (subscribe_parameters names op hdl) =
      Handlers.subscribe_parameters env ros options names op hdl
  perform (parameter_updates ps) = Handlers.parameter_updates env ros options ps
  perform (subscribe_connection_graph wanted) =
      Handlers.subscribe_connection_graph env ros options wanted
  perform (ros_message id hdl bytes timestamp) =
      Handlers.ros_message_handler env ros options id hdl bytes timestamp
  perform (clock_received nanoseconds) = Handlers.clock_received env ros options nanoseconds
  perform poll_start = Polling.poll_start env ros options packages fuel
  perform graph_changed = Polling.graph_changed env ros options packages fuel

  unfoldable pub run : List Event → Bridge → Bridge
  unfolding perform
  run [] b = b
  run (e ∷ es) b = run es (perform e b).1
