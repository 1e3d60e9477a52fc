-- ===== src/Server/Requests.antt =====
-- What the server is asked to do, by the WebSocket library (connections and messages, in the order
-- of the callback queue) and by the bridge (the functions of `ServerInterface`). A run is a sequence
-- of requests; an exception ends its request and leaves the state as it is then.
use co_bridge.Base.{ℕ, List, [], ◌∷◌, String, Option}
use co_bridge.Base.Action.{pure, ◌>>◌}
use co_bridge.Parameter.{Parameter}
use co_bridge.Wire.{ServiceResponse}
use co_bridge.Server.Types.{
  Server, ServerAction, ChannelWithoutId, ServiceWithoutId, FetchAssetResponse, MapOfSets,
}
use co_bridge.Server.Environment.{Environment, JsonLibrary}
use co_bridge.Server.Channels
use co_bridge.Server.Frames
use co_bridge.Server.Parameters
use co_bridge.Server.Graph
use co_bridge.Server.Sessions
use co_bridge.Server.Dispatch

pub data Request : Type 0 where
  connection_opened connection_closed : ℕ → Request
  message : ℕ → Dispatch.Message → Request
  add_channels : List ChannelWithoutId → Request
  remove_channels remove_services : List ℕ → Request
  add_services : List ServiceWithoutId → Request
  publish_parameter_values : ℕ → List Parameter → Option String → Request
  update_parameter_values : List Parameter → Request
  send_message : ℕ → ℕ → ℕ → List ℕ → Request
  broadcast_time : ℕ → Request
  send_service_response : ℕ → ServiceResponse → Request
  send_fetch_asset_response : ℕ → FetchAssetResponse → Request
  update_connection_graph : MapOfSets → MapOfSets → MapOfSets → Request

module _ (env : Environment) (json : JsonLibrary) where
  unfoldable pub perform : Request → ServerAction Unit
  perform (connection_opened hdl) = Sessions.handle_connection_opened env hdl
  perform (connection_closed hdl) = Sessions.handle_connection_closed env hdl
  perform (message hdl msg) = Dispatch.handle_message env json hdl msg
  perform (add_channels cs) = Channels.add_channels env cs >> pure tt
  perform (remove_channels ids) = Channels.remove_channels env ids
  perform (add_services ds) = Channels.add_services env ds >> pure tt
  perform (remove_services ids) = Channels.remove_services env ids
  perform (publish_parameter_values hdl ps id) = Parameters.publish_parameter_values env hdl ps id
  perform (update_parameter_values ps) = Parameters.update_parameter_values env ps
  perform (send_message hdl channel timestamp payload) =
      Frames.send_message env hdl channel timestamp payload
  perform (broadcast_time timestamp) = Frames.broadcast_time env timestamp
  perform (send_service_response hdl response) = Frames.send_service_response env hdl response
  perform (send_fetch_asset_response hdl response) =
      Frames.send_fetch_asset_response env hdl response
  perform (update_connection_graph published subscribed services) =
      Graph.update_connection_graph env published subscribed services

  unfoldable pub run : List Request → Server → Server
  run [] s = s
  run (r ∷ rs) s = run rs (perform r s).1
