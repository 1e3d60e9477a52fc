-- ===== src/Tests/Nodes.antt =====
-- The parameter interface: a node /n with two parameters, of which the whitelist allows one.
use co_bridge.Base.{String, List, [], ◌∷◌, true, false, none, ◌≡◌, refl, All, any, text_keys, ◌==◌}
use co_bridge.Base.Assoc.{find, has_key}
use co_bridge.Base.Action.{returned}
use co_bridge.Base.Action.Yields.{OnReturn}
use co_bridge.Parameter.{Parameter, of_bool}
use co_bridge.Server.Environment.{Environment}
use co_bridge.Server.Subscriptions.{is_whitelisted}
use co_bridge.ParameterInterface.Names.{get_node_and_param_name}
use co_bridge.Base.Attempt.{map_attempt}
use co_bridge.ParameterInterface.Conversion.{
  RosParameter, ros_bool, ros_integer_array, to_ros_param, from_ros_param, back_at_ros,
  to_ros_param-from_ros_param,
}
use co_bridge.ParameterInterface.State.{Interface, Nodes, ready}
use co_bridge.ParameterInterface.Getting.{get_params}
use co_bridge.ParameterInterface.Watching.{subscribe_params, unsubscribe_param}
use co_bridge.ParameterInterface.Allowed.{IsAllowed, get_params-IsAllowed}
use co_bridge.ParameterInterface.Watched.{
  IsWatched, ending_of, can_unmark, unsubscribe_param-IsWatched,
}
use co_bridge.ParameterInterface.Subscribing.{subscribe_params-IsWatched}
use co_bridge.ParameterInterface.Later.{Happening, subscribing, changing}
use co_bridge.Tests.Setting.{env}

abbrev speed : RosParameter
speed = record { name = "speed"; value = ros_bool true }

abbrev nodes : Nodes
nodes = record {
  this_node = "/cobridge";
  node_names = λ calls. "/n" ∷ [];
  service_types = λ calls name ns. [];
  service_is_ready = λ calls node. true;
  parameter_names = λ calls node. ready ("speed" ∷ "secret" ∷ []);
  parameters_of = λ calls node names. ready (speed ∷ record speed { name = "secret" } ∷ []);
  parameters_set = λ calls node params. ready tt;
  failure = λ calls call. none;
}

-- Here a pattern matches itself.
abbrev matching : Environment
matching = record env { regex_match = λ name pattern. name == pattern }

abbrev patterns : List String
patterns = "/n.speed" ∷ []

abbrev unused : Interface
unused = record {
  param_clients_by_node = [];
  subscribed_params_by_node = [];
  param_subscriptions_by_node = [];
  has_update_func = true;
  calls = [];
}

unused-IsWatched : IsWatched unused
unfolding has_key find
unused-IsWatched = record { watched = λ n. refl; named = λ n. tt }

abbrev allowed : Parameter
allowed = record { name = "/n.speed"; value = of_bool false }

abbrev forbidden : Parameter
forbidden = record { name = "/n.secret"; value = of_bool false }

to_ros_param-from_ros_param_example :
    to_ros_param (from_ros_param (record speed { value = ros_integer_array [] }))
    ≡ map_attempt (λ v. record { name = "speed"; value = v }) (back_at_ros (ros_integer_array []))
to_ros_param-from_ros_param_example =
    to_ros_param-from_ros_param (record speed { value = ros_integer_array [] })

get_params-IsAllowed_example :
    OnReturn
      (All (IsAllowed matching nodes patterns))
      (get_params matching nodes patterns ("/n.speed" ∷ "/n.secret" ∷ []) unused).0
get_params-IsAllowed_example =
    get_params-IsAllowed matching nodes patterns ("/n.speed" ∷ "/n.secret" ∷ []) unused

subscribe_params-IsWatched_example :
    ((subscribe_params matching nodes patterns ("/n.speed" ∷ []) unused).0 ≡ returned tt)
    × IsWatched (subscribe_params matching nodes patterns ("/n.speed" ∷ []) unused).1
unfolding any is_whitelisted
subscribe_params-IsWatched_example =
    subscribe_params-IsWatched matching nodes patterns (λ calls c. refl) ("/n.speed" ∷ []) unused
      (refl, tt) unused-IsWatched

-- The interface with a subscription to the parameter that is allowed.
abbrev in_use : Interface
in_use = (subscribe_params matching nodes patterns ("/n.speed" ∷ []) unused).1

in_use-IsWatched : IsWatched in_use
unfolding any is_whitelisted
in_use-IsWatched =
    (subscribe_params-IsWatched matching nodes patterns (λ calls c. refl) ("/n.speed" ∷ []) unused
      (refl, tt) unused-IsWatched).1

unsubscribe_param-IsWatched_example :
    ((unsubscribe_param "/n.speed" in_use).0
      ≡ returned (ending_of (can_unmark "speed" (find "/n" in_use.subscribed_params_by_node))))
    × IsWatched (unsubscribe_param "/n.speed" in_use).1
unfolding get_node_and_param_name
unsubscribe_param-IsWatched_example = unsubscribe_param-IsWatched "/n.speed" in_use in_use-IsWatched

-- What comes after the call that is refused: the name once more, and a change at the node.
abbrev later : List Happening
later = subscribing ("/n.speed" ∷ []) ∷ changing "/n" (speed ∷ []) ∷ []
