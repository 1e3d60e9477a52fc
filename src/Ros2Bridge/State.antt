-- ===== src/Ros2Bridge/State.antt =====
-- The members of CoBridge, what it calls of ROS, and its calls of the server.
use co_bridge.Base.{ℕ, String, List, ◌∷◌, Bool, Option, none, some}
use co_bridge.Base.Assoc.{Assoc}
use co_bridge.Base.Errors.{Exception}
use co_bridge.Base.Action.{Outcome, returned, thrown, Action}
use co_bridge.Wire.{ServiceResponse}
use co_bridge.Parameter.{Parameter}
use co_bridge.Server.Types.{Server, ServerAction, ChannelWithoutId, ServiceWithoutId}
use co_bridge.MessageDefinitions.Cache.{Cache}
use co_bridge.Ros2Bridge.Qos.{QosProfile, EndpointInfo}

pub record RosSubscription : Type 0 where
  pub topic : String
  pub datatype : String
  pub qos : QosProfile

pub record RosPublisher : Type 0 where
  pub topic : String
  pub datatype : String
  pub qos : QosProfile

-- What the bridge asks of ROS. A service request goes with the service, the message and the client that
-- waits for the answer.
pub data RosCall : Type 0 where
  create_subscription : ℕ → ℕ → RosSubscription → RosCall
  create_publisher : RosPublisher → RosCall
  publish : RosPublisher → List ℕ → RosCall
  create_client : String → String → RosCall
  send_request : String → ServiceResponse → ℕ → RosCall
  retrieve : String → RosCall
  set_params : List Parameter → RosCall
  get_params subscribe_params unsubscribe_params : List String → RosCall

-- The parameters that the node was started with.
pub record BridgeOptions : Type 0 where
  pub node_name : String
  pub node_namespace : String
  pub min_qos_depth : ℕ
  pub max_qos_depth : ℕ
  pub topic_whitelist_patterns : List String
  pub service_whitelist_patterns : List String
  pub asset_uri_allowlist_patterns : List String
  pub include_hidden : Bool
  pub capabilities : List String

pub record Bridge : Type 0 where
  pub server : Server
  pub definitions : Cache
  pub advertised_topics : Assoc ℕ ChannelWithoutId
  pub advertised_services : Assoc ℕ ServiceWithoutId
  pub subscriptions : Assoc ℕ (Assoc ℕ RosSubscription)
  pub client_advertised_topics : Assoc ℕ (Assoc ℕ RosPublisher)
  pub service_clients : Assoc ℕ String
  pub subscribe_graph_updates : Bool
  pub ros_calls : List RosCall

abbrev pub BridgeAction : Type 0 → Type 0
BridgeAction = Action Bridge

-- The answers of ROS, which may depend on all that was asked before.
pub record Ros : Type 0 where
  -- `rclcpp::ok()`
  pub running : List RosCall → Bool
  -- the exception that a call ends with, if any
  pub failure : List RosCall → RosCall → Option Exception
  pub publishers_info : List RosCall → String → List EndpointInfo
  pub subscriptions_info : List RosCall → String → List EndpointInfo
  pub service_names_and_types : List RosCall → List (String × List String)
  pub topic_names_and_types : List RosCall → List (String × List String)
  -- get_node_names, with namespace and name apart, and the services of a node
  pub node_names : List RosCall → List (String × String × String)
  pub services_of_node : List RosCall → String → String → List String
  -- `wait_for_service(1s)`
  pub service_available : List RosCall → String → Bool
  pub resource : String → List ℕ
  -- get_params of the parameter interface
  pub params : List RosCall → List String → List Parameter
  -- `now().nanoseconds()`
  pub now : List RosCall → ℕ

abbrev outcome_of : Option Exception → Outcome Unit
outcome_of none = returned tt
outcome_of (some x) = thrown x

unfoldable pub call_ros : Ros → RosCall → BridgeAction Unit
call_ros ros call b =
    (outcome_of (ros.failure b.ros_calls call), record b { ros_calls = call ∷ b.ros_calls })

-- A member function of the server on the bridge's server.
unfoldable pub on_server : {A : Type 0} → ServerAction A → BridgeAction A
on_server m b = let (o, s) = m b.server in (o, record b { server = s })
