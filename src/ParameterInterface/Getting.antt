-- ===== src/ParameterInterface/Getting.antt =====
-- get_params and get_node_parameters.
use Prim.Native.Char.{code}
use co_bridge.Base.{
  String, List, [], ◌∷◌, ◌++◌, Bool, not, ◌&&◌, ◌||◌, Option, none, some, text_keys, nat_eq, ◌==◌,
  is_empty, length, contains, any, if◌then◌else◌,
}
use co_bridge.Base.Assoc.{Assoc, emplace, update}
use co_bridge.Base.Errors.{
  Exception, standard, invalid_node_name, service_not_ready, no_parameter_names,
  get_parameters_timed_out,
}
use co_bridge.Base.Action.{Outcome, returned, thrown, pure, throw, gets, lift, ◌>>=◌, ◌>>◌}
use co_bridge.Parameter.{Parameter}
use co_bridge.Server.Environment.{Environment}
use co_bridge.Server.Subscriptions.{is_whitelisted}
use co_bridge.ParameterInterface.Names.{get_node_and_param_name, prepend_node_name_to_param_name}
use co_bridge.ParameterInterface.Conversion.{RosParameter, from_ros_param}
use co_bridge.ParameterInterface.State.{
  ParameterCall, list_parameters, get_parameters, InterfaceAction, Nodes, Answer, ready, timed_out,
  failed, call, client_for,
}
use co_bridge.ParameterInterface.Setting.{logged, launch}

abbrev pub NamesByNode : Type 0
NamesByNode = Assoc String (List String)

-- `param_names_by_node_name[node_name].push_back(param_name)`
unfoldable pub add_name : String → NamesByNode → NamesByNode
unfolding get_node_and_param_name
add_name name m =
    let (node_name, param_name) = get_node_and_param_name name in
    update node_name (λ names. names ++ (param_name ∷ [])) (emplace node_name [] m)

unfoldable pub names_by_node : List String → NamesByNode → NamesByNode
unfolding add_name
names_by_node [] m = m
names_by_node (name ∷ names) m = names_by_node names (add_name name m)

-- What stands before and behind the last slash, and `none` where `find_last_of` gives `npos`.
unfoldable pub split_at_slash : String → Option (String × String)
split_at_slash String.[] = none
split_at_slash (String.◌∷◌ c s) = elim (split_at_slash s) [
  | some p ↦ some (String.◌∷◌ c p.0, p.1)
  | none ↦ if nat_eq (code c) b'/' then some ("", s) else none
]

-- The namespace and the name; utils.hpp
unfoldable pub get_node_and_node_namespace : String → Outcome (String × String)
unfolding split_at_slash
get_node_and_node_namespace fqn = elim (split_at_slash fqn) [
  | none ↦ thrown (standard (invalid_node_name fqn))
  | some p ↦ returned p
]

abbrev pub get_service_type : String
get_service_type = "rcl_interfaces/srv/GetParameters"

abbrev pub list_service_type : String
list_service_type = "rcl_interfaces/srv/ListParameters"

unfoldable pub offers : String → List (List String) → Bool
offers service_type services = any (contains service_type) services

module _ (env : Environment) (nodes : Nodes) (patterns : List String) where
  -- Nodes that offer the services to list and to get parameters, except this one and the component manager.
  unfoldable pub parameter_nodes :
      List ParameterCall → List String → NamesByNode → Outcome NamesByNode
  unfolding get_node_and_node_namespace offers
  parameter_nodes calls [] m = returned m
  parameter_nodes calls (fqn ∷ rest) m =
      let skipped = parameter_nodes calls rest m in
      let added = parameter_nodes calls rest (emplace fqn [] m) in
      if fqn == nodes.this_node || fqn == "/cobridge_component_manager"
      then skipped
      else elim (get_node_and_node_namespace fqn) [
        | thrown x ↦ thrown x
        | returned p ↦
            let services = nodes.service_types calls p.1 p.0 in
            if offers list_service_type services && offers get_service_type services
            then added
            else skipped
      ]

  -- Full names that no pattern allows are left out.
  unfoldable pub allowed_params : String → List RosParameter → List Parameter
  unfolding is_whitelisted prepend_node_name_to_param_name from_ros_param
  allowed_params node_name [] = []
  allowed_params node_name (p ∷ ps) =
      let rest = allowed_params node_name ps in
      let full_param_name = prepend_node_name_to_param_name p.name node_name in
      if is_whitelisted env full_param_name patterns
      then from_ros_param (record p { name = full_param_name }) ∷ rest
      else rest

  abbrev pub wait_for : {A : Type 0} → Exception → Answer A → Outcome A
  wait_for late (ready a) = returned a
  wait_for late timed_out = thrown late
  wait_for late (failed x) = thrown x

  -- The names that are asked for: all of the node's, where none are given.
  unfoldable pub params_to_request : String → List String → InterfaceAction (List String)
  unfolding call
  params_to_request node_name param_names =
      if is_empty param_names
      then (gets (λ s. nodes.parameter_names s.calls node_name) >>= λ answer.
          call nodes (list_parameters node_name) >>= λ _.
          lift (wait_for (standard (no_parameter_names node_name)) answer))
      else pure param_names

  unfoldable pub get_node_parameters : String → List String → InterfaceAction (List Parameter)
  unfolding params_to_request call allowed_params
  get_node_parameters node_name param_names = do
    is_ready ← gets (λ s. nodes.service_is_ready s.calls node_name)
    if not is_ready then throw (standard (service_not_ready node_name)) else (do
      requested ← params_to_request node_name param_names
      answer ← gets (λ s. nodes.parameters_of s.calls node_name requested)
      call nodes (get_parameters node_name requested)
      params ←
          lift (wait_for (standard (get_parameters_timed_out (length requested) node_name)) answer)
      pure (allowed_params node_name params))

  -- The loop that launches a task for each other node.
  unfoldable pub get_at_nodes : NamesByNode → InterfaceAction (List (Outcome (List Parameter)))
  unfolding client_for get_node_parameters
  get_at_nodes [] = pure []
  get_at_nodes ((node_name, names) ∷ rest) =
      let others = get_at_nodes rest in
      if node_name == nodes.this_node then others else (do
        client_for nodes node_name
        task ← launch (get_node_parameters node_name names)
        tasks ← others
        pure (task ∷ tasks))

  -- The loop over the futures, where each list goes before those of the earlier ones.
  unfoldable pub collect :
      List (Outcome (List Parameter)) → List Parameter → InterfaceAction (List Parameter)
  collect [] result = pure result
  collect (task ∷ tasks) result = logged [] task >>= λ params. collect tasks (params ++ result)

  -- The nodes to ask, with the names to ask each for: none for all of a node's.
  unfoldable pub nodes_to_ask : List String → InterfaceAction NamesByNode
  unfolding names_by_node parameter_nodes
  nodes_to_ask param_names =
      if is_empty param_names
      then (gets (λ s. s.calls) >>= λ calls.
          lift (parameter_nodes calls (nodes.node_names calls) []))
      else pure (names_by_node param_names [])

  unfoldable pub get_params : List String → InterfaceAction (List Parameter)
  unfolding nodes_to_ask get_at_nodes collect
  get_params param_names = do
    by_node ← nodes_to_ask param_names
    tasks ← get_at_nodes by_node
    collect tasks []
