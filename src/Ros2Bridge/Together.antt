-- ===== src/Ros2Bridge/Together.antt =====
-- The bridge and its server through every run.
use co_bridge.Base.{ℕ, List, [], ◌∷◌}
use co_bridge.Base.Action.Keeps.{Keeps}
use co_bridge.Server.Environment.{Environment, JsonLibrary}
use co_bridge.Server.Requests
use co_bridge.MessageDefinitions.Specs.{Packages}
use co_bridge.Ros2Bridge.State.{Bridge, BridgeOptions, Ros, on_server}
use co_bridge.Ros2Bridge.Run
use co_bridge.Ros2Bridge.Run.{Event}
use co_bridge.Ros2Bridge.Invariant.{subscribe-IsTracked, unsubscribe-IsTracked}
use co_bridge.Ros2Bridge.Quiet
use co_bridge.Ros2Bridge.Quiet.{Quiet, Keeps-request}
use co_bridge.Server.Invariant.Messages.{ChangesChannels}
use co_bridge.Ros2Bridge.Handling
use co_bridge.Ros2Bridge.Coherence.{
  IsCoherent, Quiet-IsCoherent, Keeps-subscribe, Keeps-unsubscribe, HasRoom, poll_start-IsCoherent,
  graph_changed-IsCoherent,
}

module _ (env : Environment) (json : JsonLibrary) (ros : Ros) (options : BridgeOptions)
    (packages : Packages) (fuel : ℕ) where
  -- Channel ids last for the topics of the round, where the event is a round of the polling thread.
  abbrev pub HasRoomAt : Event → Bridge → Type 0
  HasRoomAt Run.poll_start b = HasRoom env json ros options packages fuel b
  HasRoomAt Run.graph_changed b = HasRoom env json ros options packages fuel b
  HasRoomAt _ b = Unit

  -- They last for each round in a run.
  abbrev pub IdsLast : List Event → Bridge → Type 0
  IdsLast [] b = Unit
  IdsLast (e ∷ es) b =
      HasRoomAt e b × IdsLast es (Run.perform env json ros options packages fuel e b).1

  Keeps-server_request :
      (r : Requests.Request)
      → (ChangesChannels r → ⊥)
      → Keeps IsCoherent (on_server (Requests.perform env json r))
  Keeps-server_request = Keeps-request Quiet-IsCoherent env json

  perform-IsCoherent :
      (e : Event) (b : Bridge)
      → HasRoomAt e b
      → IsCoherent b
      → IsCoherent (Run.perform env json ros options packages fuel e b).1
  unfolding Run.perform Requests.perform
  perform-IsCoherent (Run.opened hdl) b room h =
      (Keeps-server_request (Requests.connection_opened hdl) λ c. c).at b h
  perform-IsCoherent (Run.closed hdl) b room h =
      (Keeps-server_request (Requests.connection_closed hdl) λ c. c).at b h
  perform-IsCoherent (Run.message hdl m) b room h =
      (Keeps-server_request (Requests.message hdl m) λ c. c).at b h
  perform-IsCoherent (Run.subscribe id hdl) b room h = record {
    agrees = (Keeps-subscribe ros options id hdl).at b h.agrees;
    tracked = subscribe-IsTracked ros options id hdl b h.tracked;
  }
  perform-IsCoherent (Run.unsubscribe id hdl) b room h = record {
    agrees = (Keeps-unsubscribe ros options id hdl).at b h.agrees;
    tracked = unsubscribe-IsTracked id hdl b h.tracked;
  }
  perform-IsCoherent (Run.client_advertise a hdl) b room h =
      (Quiet.Keeps-client_advertise Quiet-IsCoherent env ros options a hdl).at b h
  perform-IsCoherent (Run.client_unadvertise id hdl) b room h =
      (Quiet.Keeps-client_unadvertise Quiet-IsCoherent env ros options id hdl).at b h
  perform-IsCoherent (Run.client_message m hdl) b room h =
      (Quiet.Keeps-client_message Quiet-IsCoherent env ros options m hdl).at b h
  perform-IsCoherent (Run.service_request r hdl) b room h =
      (Handling.Keeps-service_request Quiet-IsCoherent env json ros options packages fuel r hdl).at
        b h
  perform-IsCoherent (Run.response_received r hdl bytes) b room h =
      (Handling.Keeps-response_received Quiet-IsCoherent env json ros options packages fuel r hdl
          bytes).at
        b h
  perform-IsCoherent (Run.fetch_asset uri id hdl) b room h =
      (Handling.Keeps-fetch_asset Quiet-IsCoherent env json ros options uri id hdl).at b h
  perform-IsCoherent (Run.get_parameters names id hdl) b room h =
      (Handling.Keeps-get_parameters Quiet-IsCoherent env json ros options names id hdl).at b h
  perform-IsCoherent (Run.set_parameters ps id hdl) b room h =
      (Handling.Keeps-set_parameters Quiet-IsCoherent env json ros options ps id hdl).at b h
  perform-IsCoherent (Run.subscribe_parameters names op hdl) b room h =
      (Handling.Keeps-subscribe_parameters Quiet-IsCoherent env json ros options names op hdl).at b
        h
  perform-IsCoherent (Run.parameter_updates ps) b room h =
      (Handling.Keeps-parameter_updates Quiet-IsCoherent env json ros options ps).at b h
  perform-IsCoherent (Run.subscribe_connection_graph wanted) b room h =
      (Handling.Keeps-subscribe_connection_graph Quiet-IsCoherent env json ros options wanted).at b
        h
  perform-IsCoherent (Run.ros_message id hdl bytes timestamp) b room h =
      (Handling.Keeps-ros_message_handler Quiet-IsCoherent env json ros options id hdl bytes
          timestamp).at
        b h
  perform-IsCoherent (Run.clock_received nanoseconds) b room h =
      (Handling.Keeps-clock_received Quiet-IsCoherent env json ros options nanoseconds).at b h
  perform-IsCoherent Run.poll_start b room h =
      poll_start-IsCoherent env json ros options packages fuel b room h
  perform-IsCoherent Run.graph_changed b room h =
      graph_changed-IsCoherent env json ros options packages fuel b room h

-- Through every run of connections, messages, handlers and polling rounds, the server offers exactly the channels
-- that the bridge advertises, under the same ids, and every channel with subscriptions is advertised, while channel
-- ids last for the topics of each round.
pub run-IsCoherent :
    (env : Environment) (json : JsonLibrary) (ros : Ros) (options : BridgeOptions)
    (packages : Packages) (fuel : ℕ) (events : List Event) (b : Bridge)
    → IdsLast env json ros options packages fuel events b
    → IsCoherent b
    → IsCoherent (Run.run env json ros options packages fuel events b)
unfolding Run.run
run-IsCoherent env json ros options packages fuel [] b last h = h
run-IsCoherent env json ros options packages fuel (e ∷ es) b last h =
    run-IsCoherent env json ros options packages fuel es _ last.1
      (perform-IsCoherent env json ros options packages fuel e b last.0 h)
