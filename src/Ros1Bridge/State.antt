-- ===== src/Ros1Bridge/State.antt =====
-- The members of the ROS 1 nodelet, what it asks of ROS and of the master, and its calls of the server.
use co_bridge.Base.{ℕ, String, List, ◌∷◌, Bool, Option, none, some}
use co_bridge.Base.Assoc.{Assoc}
use co_bridge.Base.Errors.{Exception}
use co_bridge.Base.Action.{Outcome, returned, thrown, Action}
use co_bridge.Wire.{ServiceResponse}
use co_bridge.Server.Types.{
  Server, ServerAction, ChannelWithoutId, ServiceWithoutId, ClientAdvertisement,
}
use co_bridge.Ros1Bridge.Conversion.{XmlRpcValue}

-- What is asked of ROS and of its master. A subscription goes with its channel and its client.
pub data MasterCall : Type 0 where
  subscribe_topic : ℕ → ℕ → String → MasterCall
  advertise_topic : ClientAdvertisement → MasterCall
  publish : String → List ℕ → MasterCall
  get_param delete_param : String → MasterCall
  set_param : String → XmlRpcValue → MasterCall
  subscribe_param unsubscribe_param : String → MasterCall
  call_service : String → ServiceResponse → MasterCall
  retrieve : String → MasterCall
  create_timer : ℕ → MasterCall

pub record SystemState : Type 0 where
  pub publishers : List (String × List String)
  pub subscribers : List (String × List String)
  pub services : List (String × List String)

-- The parameters that the nodelet was started with.
pub record NodeletOptions : Type 0 where
  pub topic_whitelist_patterns : List String
  pub param_whitelist_patterns : List String
  pub service_whitelist_patterns : List String
  pub asset_uri_allowlist_patterns : List String
  pub capabilities : List String
  pub max_update_ms : ℕ

-- A subscriber is known by the topic that it is for, and so is a publisher.
pub record Nodelet : Type 0 where
  pub server : Server
  pub advertised_topics : Assoc ℕ ChannelWithoutId
  pub advertised_services : Assoc ℕ ServiceWithoutId
  pub subscriptions : Assoc ℕ (Assoc ℕ String)
  pub client_advertised_topics : Assoc ℕ (Assoc ℕ String)
  pub update_count : ℕ
  pub subscribe_graph_updates : Bool
  pub calls : List MasterCall

abbrev pub NodeletAction : Type 0 → Type 0
NodeletAction = Action Nodelet

-- The answers of ROS and of its master, which may depend on all that was asked before.
pub record Master : Type 0 where
  pub running : List MasterCall → Bool
  -- the exception that a call ends with, if any
  pub failure : List MasterCall → MasterCall → Option Exception
  -- `ros::master::execute`
  pub executes : List MasterCall → MasterCall → Bool
  -- `ros::master::getTopics`, and getSystemState
  pub topics : List MasterCall → Option (List (String × String))
  pub system_state : List MasterCall → Option SystemState
  pub param_names : List MasterCall → Option (List String)
  pub param : List MasterCall → String → XmlRpcValue
  -- whether `advertise` gives a valid publisher
  pub publisher_made : List MasterCall → ClientAdvertisement → Bool
  -- the definition of a message, and those of a service's request and response
  pub message_description : String → Outcome (Option String)
  pub service_description : String → Outcome (Option (String × String))
  -- retrieve_service_type
  pub service_type : List MasterCall → String → Outcome String
  pub service_exists : List MasterCall → String → Bool
  pub service_reply : List MasterCall → String → List ℕ → Option (List ℕ)
  pub resource : String → List ℕ
  -- what `size_t(1) << n` gives for n ≥ 64, where C++ leaves it open
  pub shifted_out : ℕ → ℕ

abbrev pub outcome_of : Option Exception → Outcome Unit
outcome_of none = returned tt
outcome_of (some x) = thrown x

unfoldable pub ask : Master → MasterCall → NodeletAction Unit
ask master call s = (outcome_of (master.failure s.calls call), record s { calls = call ∷ s.calls })

-- A member function of the server on the nodelet's server.
unfoldable pub on_server : {A : Type 0} → ServerAction A → NodeletAction A
on_server m s = let (o, server) = m s.server in (o, record s { server = server })
