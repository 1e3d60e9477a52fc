-- ===== src/Ros1Bridge/Parameters.antt =====
-- get_parameters, set_parameters, subscribe_parameters and parameter_updates of the ROS 1 nodelet.
use co_bridge.Base.{
  ℕ, String, List, [], ◌∷◌, Bool, true, false, not, ◌&&◌, Option, none, some, is_empty, map,
  if◌then◌else◌,
}
use co_bridge.Base.Errors.{standard, text}
use co_bridge.Base.Action.{pure, throw, gets, lift, try_catch, ◌>>=◌, ◌>>◌}
use co_bridge.Parameter.{Parameter, ParameterType, parameter_not_set, type_of}
use co_bridge.Server.Types.{ParameterSubscriptionOperation, subscribe, unsubscribe}
use co_bridge.Server.Environment.{Environment}
use co_bridge.Server.Parameters.{publish_parameter_values, update_parameter_values}
use co_bridge.Server.Subscriptions.{is_whitelisted}
use co_bridge.Ros1Bridge.Conversion.{XmlRpcValue, value_to_ros, parameter_from_ros}
use co_bridge.Ros1Bridge.State.{
  NodeletAction, NodeletOptions, Master, MasterCall, get_param, delete_param, set_param,
  subscribe_param, unsubscribe_param, ask, on_server,
}

-- What a loop over parameters comes to: the parameters that were found, and `success`.
abbrev pub Found : Type 0
Found = List Parameter × Bool

abbrev pub add_found : Option Parameter → Bool → Found → Found
add_found none allowed (ps, success) = (ps, false)
add_found (some p) allowed (ps, success) = (p ∷ ps, allowed && success)

abbrev pub report : String → Bool → NodeletAction Unit
report message success = if success then pure tt else throw (standard (text message))

-- The names to get: all, where none are given.
unfoldable pub names_to_get : Master → List String → NodeletAction (List String)
names_to_get master parameters =
    if is_empty parameters
    then (gets (λ s. master.param_names s.calls) >>= λ names. elim names [
      | none ↦ throw (standard (text "Failed to retrieve parameter names"))
      | some all ↦ pure all
    ])
    else pure parameters

-- The body of the `try` around a parameter, with its handlers, which catch all.
unfoldable pub get_one : Master → String → NodeletAction (Option Parameter)
unfolding ask parameter_from_ros
get_one master name =
    try_catch
      (gets (λ s. master.param s.calls name) >>= λ value. ask master (get_param name) >>= λ _.
        lift (parameter_from_ros name value) >>= λ p. pure (some p))
      (λ x. pure none)

module _ (env : Environment) (master : Master) (options : NodeletOptions) where
  unfoldable pub is_allowed : String → Bool
  unfolding is_whitelisted
  is_allowed name = is_whitelisted env name options.param_whitelist_patterns

  -- The loop: a name that is not allowed is passed over where all are requested. Where names were given,
  -- it counts as a failure, and the parameter is got all the same.
  unfoldable pub get_each : Bool → List String → NodeletAction Found
  unfolding is_allowed get_one
  get_each all_requested [] = pure ([], true)
  get_each all_requested (name ∷ names) =
      let rest = get_each all_requested names in
      if not (is_allowed name) && all_requested
      then rest
      else get_one master name >>= λ p. rest >>= λ found. pure (add_found p (is_allowed name) found)

  unfoldable pub get_parameters : List String → Option String → ℕ → NodeletAction Unit
  unfolding names_to_get get_each on_server
  get_parameters parameters request_id hdl = do
    names ← names_to_get master parameters
    found ← get_each (is_empty parameters) names
    on_server (publish_parameter_values env hdl found.0 request_id)
    report "Failed to retrieve one or multiple parameters" found.1

  abbrev pub deletes : ParameterType → Bool
  deletes parameter_not_set = true
  deletes _ = false

  unfoldable pub set_one : Parameter → NodeletAction Bool
  unfolding ask value_to_ros type_of
  set_one p =
      try_catch
        (if deletes (type_of p.value)
          then (ask master (delete_param p.name) >>= λ _. pure true)
          else (lift (value_to_ros p.value) >>= λ value.
              ask master (set_param p.name value) >>= λ _. pure true))
        (λ x. pure false)

  unfoldable pub set_each : List Parameter → NodeletAction Bool
  unfolding is_allowed set_one
  set_each [] = pure true
  set_each (p ∷ ps) =
      let rest = set_each ps in
      if is_allowed p.name
      then (set_one p >>= λ done. rest >>= λ success. pure (done && success))
      else (rest >>= λ success. pure false)

  unfoldable pub set_parameters : List Parameter → Option String → ℕ → NodeletAction Unit
  unfolding set_each get_parameters
  set_parameters parameters request_id hdl = do
    success ← set_each parameters
    elim request_id [
      | none ↦ pure tt
      | some id ↦ get_parameters (map (λ p. p.name) parameters) (some id) hdl
    ]
    report "Failed to set one or multiple parameters" success

  abbrev pub parameter_call : ParameterSubscriptionOperation → String → MasterCall
  parameter_call subscribe name = subscribe_param name
  parameter_call unsubscribe name = unsubscribe_param name

  abbrev pub verb_failed : ParameterSubscriptionOperation → String
  verb_failed subscribe = "Failed to subscribe one or multiple parameters."
  verb_failed unsubscribe = "Failed to unsubscribe one or multiple parameters."

  -- A name that is not allowed is passed over and does not count as a failure.
  unfoldable pub subscribe_each : ParameterSubscriptionOperation → List String → NodeletAction Bool
  unfolding is_allowed ask
  subscribe_each op [] = pure true
  subscribe_each op (name ∷ names) =
      let rest = subscribe_each op names in
      if is_allowed name
      then (gets (λ s. master.executes s.calls (parameter_call op name)) >>= λ executed.
          ask master (parameter_call op name) >>= λ _.
          rest >>= λ success. pure (executed && success))
      else rest

  unfoldable pub subscribe_parameters :
      List String → ParameterSubscriptionOperation → ℕ → NodeletAction Unit
  unfolding subscribe_each
  subscribe_parameters parameters op hdl =
      subscribe_each op parameters >>= λ success. report (verb_failed op) success

  -- parameter_updates with three parameters, from the clean name and the value on.
  unfoldable pub parameter_updates : String → XmlRpcValue → NodeletAction Unit
  unfolding parameter_from_ros on_server
  parameter_updates name value =
      try_catch
        (lift (parameter_from_ros name value) >>= λ p.
          on_server (update_parameter_values env (p ∷ [])))
        (λ x. pure tt)
