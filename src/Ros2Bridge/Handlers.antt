-- ===== src/Ros2Bridge/Handlers.antt =====
-- The other handlers of CoBridge: assets, parameters, the connection graph, messages of ROS.
use Prim.Native.Char.{code}
use Prim.Native.String.{◌++◌ as append}
use co_bridge.Base.{
  ℕ, ◌-◌, ◌^◌, String, List, [], ◌∷◌, Bool, false, not, ◌&&◌, Option, none, some, text_keys, map,
  insert, nat_eq, if◌then◌else◌,
}
use co_bridge.Base.Assoc.{emplace, update}
use co_bridge.Base.Errors.{Exception, standard, text}
use co_bridge.Base.Int.{ℤ, pos, negsuc}
use co_bridge.Base.Text.{has_part}
use co_bridge.Base.Action.{pure, throw, gets, modify, try_catch, ◌>>=◌, ◌>>◌}
use co_bridge.Parameter.{Parameter}
use co_bridge.Server.Types.{
  FetchAssetResponse, success, error, MapOfSets, ParameterSubscriptionOperation, subscribe,
  unsubscribe,
}
use co_bridge.Server.Environment.{Environment}
use co_bridge.Server.Frames.{send_message, broadcast_time, send_fetch_asset_response}
use co_bridge.Server.Graph
use co_bridge.Server.Parameters.{publish_parameter_values, update_parameter_values, what_of}
use co_bridge.Server.Subscriptions.{is_whitelisted}
use co_bridge.Server.Dispatch.{bytes_of}
use co_bridge.Ros2Bridge.Qos.{EndpointInfo}
use co_bridge.Ros2Bridge.State.{
  BridgeAction, BridgeOptions, Ros, on_server, call_ros, retrieve, set_params, get_params,
  subscribe_params, unsubscribe_params,
}
use co_bridge.Ros2Bridge.Topics.{TopicNamesAndTypes}

-- `static_cast<uint64_t>`
unfoldable pub as_unsigned : ℤ → ℕ
as_unsigned (pos n) = n
as_unsigned (negsuc n) = 2 ^ 64 - 1 - n

module _ (env : Environment) (ros : Ros) (options : BridgeOptions) where
  unfoldable pub is_allowed_asset : String → Bool
  unfolding has_part is_whitelisted
  is_allowed_asset asset_id =
      not (has_part asset_id "..")
      && is_whitelisted env asset_id options.asset_uri_allowlist_patterns

  -- The body of the `try`: the response with the data of the resource.
  unfoldable pub retrieve_asset : String → ℕ → BridgeAction FetchAssetResponse
  unfolding is_allowed_asset call_ros
  retrieve_asset asset_id request_id =
      if is_allowed_asset asset_id
      then call_ros ros (retrieve asset_id)
        >> pure (record {
          request_id = request_id;
          status = success;
          error_message = [];
          bytes = ros.resource asset_id;
        })
      else throw (standard (text (append "Asset URI not allowed: " asset_id)))

  -- The handler of std::exception; another value is not caught.
  unfoldable pub asset_error : String → ℕ → Exception → BridgeAction FetchAssetResponse
  unfolding bytes_of
  asset_error asset_id request_id x = elim (what_of x) [
    | none ↦ throw x
    | some w ↦ pure (record {
      request_id = request_id;
      status = error;
      error_message = bytes_of (append "Failed to retrieve asset " asset_id);
      bytes = [];
    })
  ]

  unfoldable pub fetch_asset : String → ℕ → ℕ → BridgeAction Unit
  unfolding retrieve_asset asset_error on_server
  fetch_asset asset_id request_id hdl =
      try_catch (retrieve_asset asset_id request_id) (asset_error asset_id request_id)
      >>= λ response. on_server (send_fetch_asset_response env hdl response)

  unfoldable pub get_parameters : List String → Option String → ℕ → BridgeAction Unit
  unfolding call_ros on_server
  get_parameters names request_id hdl = do
    call_ros ros (get_params names)
    params ← gets (λ b. ros.params b.ros_calls names)
    on_server (publish_parameter_values env hdl params request_id)

  unfoldable pub set_parameters : List Parameter → Option String → ℕ → BridgeAction Unit
  unfolding call_ros get_parameters
  set_parameters parameters request_id hdl = do
    call_ros ros (set_params parameters)
    elim request_id [
      | none ↦ pure tt
      | some id ↦ get_parameters (map (λ p. p.name) parameters) (some id) hdl
    ]

  unfoldable pub subscribe_parameters :
      List String → ParameterSubscriptionOperation → ℕ → BridgeAction Unit
  unfolding call_ros
  subscribe_parameters names subscribe hdl = call_ros ros (subscribe_params names)
  subscribe_parameters names unsubscribe hdl = call_ros ros (unsubscribe_params names)

  unfoldable pub parameter_updates : List Parameter → BridgeAction Unit
  unfolding on_server
  parameter_updates parameters = on_server (update_parameter_values env parameters)

  -- `ns.back() == '/'`
  unfoldable pub ends_with_slash : String → Bool
  ends_with_slash String.[] = false
  ends_with_slash (String.◌∷◌ c String.[]) = nat_eq (code c) b'/'
  ends_with_slash (String.◌∷◌ c (String.◌∷◌ d s)) = ends_with_slash (String.◌∷◌ d s)

  unfoldable pub full_node_name : EndpointInfo → String
  unfolding ends_with_slash
  full_node_name e =
      append e.node_namespace
        (append (if ends_with_slash e.node_namespace then "" else "/") e.node_name)

  unfoldable pub node_set : List EndpointInfo → List String → List String
  unfolding full_node_name insert
  node_set [] ids = ids
  node_set (e ∷ es) ids = node_set es (insert (full_node_name e) ids)

  -- The loop over the topics, for the publishers or the subscribers that `info` gives.
  unfoldable pub nodes_by_topic :
      (String → List EndpointInfo) → TopicNamesAndTypes → MapOfSets → MapOfSets
  unfolding node_set is_whitelisted
  nodes_by_topic info [] m = m
  nodes_by_topic info ((topic, datatypes) ∷ rest) m = nodes_by_topic info rest (
      if is_whitelisted env topic options.topic_whitelist_patterns
      then emplace topic (node_set (info topic) []) m
      else m)

  -- `services[service_name].insert(node)` for the services of one node.
  unfoldable pub add_services_of : String → List String → MapOfSets → MapOfSets
  unfolding insert is_whitelisted
  add_services_of node [] m = m
  add_services_of node (service ∷ rest) m = add_services_of node rest (
      if is_whitelisted env service options.service_whitelist_patterns
      then update service (insert node) (emplace service [] m)
      else m)

  unfoldable pub nodes_by_service :
      (String → String → List String) → List (String × String × String) → MapOfSets → MapOfSets
  unfolding add_services_of
  nodes_by_service services [] m = m
  nodes_by_service services ((fqn, node_namespace, node_name) ∷ rest) m =
      nodes_by_service services rest (add_services_of fqn (services node_name node_namespace) m)

  unfoldable pub update_connection_graph : TopicNamesAndTypes → BridgeAction Unit
  unfolding nodes_by_topic nodes_by_service on_server
  update_connection_graph topics = do
    calls ← gets (λ b. b.ros_calls)
    on_server (
        Graph.update_connection_graph env (nodes_by_topic (ros.publishers_info calls) topics [])
          (nodes_by_topic (ros.subscriptions_info calls) topics [])
          (nodes_by_service (ros.services_of_node calls) (ros.node_names calls) []))

  unfoldable pub subscribe_connection_graph : Bool → BridgeAction Unit
  unfolding update_connection_graph
  subscribe_connection_graph wanted = do
    modify (λ b. record b { subscribe_graph_updates = wanted })
    topics ← gets (λ b. ros.topic_names_and_types b.ros_calls)
    if wanted then update_connection_graph topics else pure tt

  -- A time stamp of 0 stands for now.
  unfoldable pub ros_message_handler : ℕ → ℕ → List ℕ → ℕ → BridgeAction Unit
  unfolding on_server
  ros_message_handler channel_id hdl message timestamp = do
    now ← gets (λ b. ros.now b.ros_calls)
    on_server
        (send_message env hdl channel_id (if nat_eq timestamp 0 then now else timestamp) message)

  -- The clock's subscription. The `assert` that the time is not negative is left out.
  unfoldable pub clock_received : ℤ → BridgeAction Unit
  unfolding on_server as_unsigned
  clock_received nanoseconds = on_server (broadcast_time env (as_unsigned nanoseconds))
