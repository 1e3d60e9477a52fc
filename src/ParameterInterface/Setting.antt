-- ===== src/ParameterInterface/Setting.antt =====
-- set_params and set_node_parameters.
use co_bridge.Base.{
  ℕ, String, List, [], ◌∷◌, ◌++◌, not, Option, none, some, text_keys, length, if◌then◌else◌,
}
use co_bridge.Base.Assoc.{Assoc, emplace, update}
use co_bridge.Base.Errors.{standard, service_not_ready, set_parameters_timed_out}
use co_bridge.Base.Action.{Outcome, returned, thrown, pure, throw, gets, for_each, ◌>>=◌, ◌>>◌}
use co_bridge.Base.Attempt.{Attempt, done, raised, undefined_behaviour, and_then}
use co_bridge.Parameter.{Parameter}
use co_bridge.Server.Environment.{Environment}
use co_bridge.Server.Parameters.{what_of}
use co_bridge.Server.Subscriptions.{is_whitelisted}
use co_bridge.ParameterInterface.Names.{get_node_and_param_name}
use co_bridge.ParameterInterface.Conversion.{RosParameter, to_ros_param}
use co_bridge.ParameterInterface.State.{
  InterfaceAction, Nodes, Ending, finished, undefined, Answer, ready, timed_out, failed,
  set_parameters, call, client_for,
}

abbrev pub ParametersByNode : Type 0
ParametersByNode = Assoc String (List RosParameter)

-- `params_by_node[node_name].emplace_back(param_name, …)`
unfoldable pub add_param : RosParameter → ParametersByNode → ParametersByNode
unfolding get_node_and_param_name
add_param p m =
    let (node_name, param_name) = get_node_and_param_name p.name in
    update node_name (λ ps. ps ++ (record p { name = param_name } ∷ [])) (emplace node_name [] m)

-- `future.get()` of a task: its exceptions are logged, if they are of the standard's class.
abbrev pub logged : {A : Type 0} → A → Outcome A → InterfaceAction A
logged nothing (returned a) = pure a
logged nothing (thrown x) = elim (what_of x) [ none ↦ throw x | some w ↦ pure nothing ]

-- A task of `std::async`, which runs to its end where it is launched: what it ends with is kept for `get`.
abbrev pub launch : {A : Type 0} → InterfaceAction A → InterfaceAction (Outcome A)
launch task s = let (o, s') = task s in (returned o, s')

module _ (env : Environment) (nodes : Nodes) (patterns : List String) where
  -- The first loop: `none` is the return at a name that is not allowed.
  unfoldable pub group_params :
      List Parameter → ParametersByNode → Attempt (Option ParametersByNode)
  unfolding is_whitelisted to_ros_param add_param
  group_params [] m = done (some m)
  group_params (p ∷ ps) m =
      if not (is_whitelisted env p.name patterns)
      then done none
      else and_then (to_ros_param p) (λ q. group_params ps (add_param q m))

  abbrev set_answer : ℕ → String → Answer Unit → InterfaceAction Unit
  set_answer count node_name (ready u) = pure tt
  set_answer count node_name timed_out = throw (standard (set_parameters_timed_out count node_name))
  set_answer count node_name (failed x) = throw x

  unfoldable pub set_node_parameters : String → List RosParameter → InterfaceAction Unit
  unfolding call
  set_node_parameters node_name params = do
    is_ready ← gets (λ s. nodes.service_is_ready s.calls node_name)
    if not is_ready then throw (standard (service_not_ready node_name)) else (do
      answer ← gets (λ s. nodes.parameters_set s.calls node_name params)
      call nodes (set_parameters node_name params)
      set_answer (length params) node_name answer)

  -- The loop that launches a task for each node.
  unfoldable pub set_at_nodes : ParametersByNode → InterfaceAction (List (Outcome Unit))
  unfolding client_for set_node_parameters
  set_at_nodes [] = pure []
  set_at_nodes ((node_name, params) ∷ rest) = do
    client_for nodes node_name
    task ← launch (set_node_parameters node_name params)
    tasks ← set_at_nodes rest
    pure (task ∷ tasks)

  unfoldable pub set_grouped : Attempt (Option ParametersByNode) → InterfaceAction Ending
  unfolding set_at_nodes
  set_grouped undefined_behaviour = pure undefined
  set_grouped (raised x) = throw x
  set_grouped (done none) = pure finished
  set_grouped (done (some m)) =
      set_at_nodes m >>= λ tasks. for_each tasks (logged tt) >>= λ _. pure finished

  unfoldable pub set_params : List Parameter → InterfaceAction Ending
  unfolding group_params set_grouped
  set_params parameters = set_grouped (group_params parameters [])
