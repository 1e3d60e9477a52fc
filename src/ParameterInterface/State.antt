-- ===== src/ParameterInterface/State.antt =====
-- The members of ParameterInterface and what it asks of the other nodes.
use co_bridge.Base.{String, List, ◌∷◌, Bool, Option, none, some, text_keys, if◌then◌else◌}
use co_bridge.Base.Assoc.{Assoc, has_key, emplace}
use co_bridge.Base.Errors.{Exception}
use co_bridge.Base.Action.{Outcome, returned, thrown, Action, pure, gets, modify, ◌>>=◌, ◌>>◌}
use co_bridge.Parameter.{Parameter}
use co_bridge.ParameterInterface.Conversion.{RosParameter}

-- The calls of rclcpp, with the node that each goes to, and of `_param_update_func`.
pub data ParameterCall : Type 0 where
  create_client : String → ParameterCall
  list_parameters : String → ParameterCall
  get_parameters : String → List String → ParameterCall
  set_parameters : String → List RosParameter → ParameterCall
  on_parameter_event : String → ParameterCall
  param_update : List Parameter → ParameterCall

-- A client and a subscription are known by the node that they are for, so the two maps of them keep its
-- name alone.
pub record Interface : Type 0 where
  pub param_clients_by_node : Assoc String Unit
  pub subscribed_params_by_node : Assoc String (List String)
  pub param_subscriptions_by_node : Assoc String Unit
  pub has_update_func : Bool
  pub calls : List ParameterCall

abbrev pub InterfaceAction : Type 0 → Type 0
InterfaceAction = Action Interface

-- Whether a function that returns came to its end, or to a point where C++ does not define what it does.
pub data Ending : Type 0 where
  finished undefined : Ending

-- What waiting for a future gives.
pub data Answer (A : Type 0) : Type 0 where
  ready : A → Answer A
  timed_out : Answer A
  failed : Exception → Answer A

-- The answers of rclcpp and of the other nodes, which may depend on all that was asked before.
pub record Nodes : Type 0 where
  -- get_fully_qualified_name
  pub this_node : String
  pub node_names : List ParameterCall → List String
  -- get_service_names_and_types_by_node of a name and a namespace: the types of each service
  pub service_types : List ParameterCall → String → String → List (List String)
  pub service_is_ready : List ParameterCall → String → Bool
  pub parameter_names : List ParameterCall → String → Answer (List String)
  pub parameters_of : List ParameterCall → String → List String → Answer (List RosParameter)
  pub parameters_set : List ParameterCall → String → List RosParameter → Answer Unit
  -- the exception that the creation of a client or of a subscription, or the update function, ends with
  pub failure : List ParameterCall → ParameterCall → Option Exception

abbrev pub outcome_of : Option Exception → Outcome Unit
outcome_of none = returned tt
outcome_of (some x) = thrown x

module _ (nodes : Nodes) where
  unfoldable pub call : ParameterCall → InterfaceAction Unit
  call c s = (outcome_of (nodes.failure s.calls c), record s { calls = c ∷ s.calls })

  abbrev pub make_client : String → InterfaceAction Unit
  make_client node_name =
      call (create_client node_name)
      >> modify
          (λ s. record s { param_clients_by_node = emplace node_name tt s.param_clients_by_node })

  -- The client of a node, which is made where there is none.
  unfoldable pub client_for : String → InterfaceAction Unit
  unfolding call ◌>>=◌
  client_for node_name = do
    known ← gets (λ s. has_key node_name s.param_clients_by_node)
    if known then pure tt else make_client node_name

abbrev pub asked : ParameterCall → Interface → Interface
asked c s = record s { calls = c ∷ s.calls }
