-- ===== src/Tests/Ros1.antt =====
-- The ROS 1 nodelet: a master with two parameters, of which the whitelist allows one, and two services.
use co_bridge.Base.{
  ℕ, ◌≤◌, ◌<◌, ◌⊎◌, [], ◌∷◌, true, false, none, some, ◌≡◌, text_keys, nat_keys, ◌==◌, arith,
}
use co_bridge.Base.Int.{pos}
use co_bridge.Base.Action.{returned}
use co_bridge.Parameter.{
  Parameter, ParameterValue, of_integer, of_string, of_array, of_struct, cons, nil, entry,
}
use co_bridge.Parameter
use co_bridge.Wire.{ServiceResponse}
use co_bridge.Server.Environment.{Environment}
use co_bridge.Server.Parameters.{publish_parameter_values}
use co_bridge.Ros1Bridge.Conversion.{string, value_from_ros, value_to_ros, IsRos1Value}
use co_bridge.Ros1Bridge.RoundTrip.{and_then, value_from_ros-value_to_ros}
use co_bridge.Ros1Bridge.State.{Nodelet, NodeletOptions, Master, on_server}
use co_bridge.Ros1Bridge.Parameters.{get_parameters, set_parameters}
use co_bridge.Ros1Bridge.Allowlist.{got, get_parameters-got}
use co_bridge.Ros1Bridge.Sets.{calls_for, set_parameters-calls_for}
use co_bridge.Ros1Bridge.Updates.{next_update_ms}
use co_bridge.Ros1Bridge.Backoff.{next_update_ms-bounds}
use co_bridge.Ros1Bridge.Services.{update_advertised_services}
use co_bridge.Ros1Bridge.Current.{AllCurrent, update_advertised_services-AllCurrent}
use co_bridge.Base.{String, List, Option, length, any, contains, refl}
use co_bridge.Base.Assoc.{find}
use co_bridge.Ros1Bridge.Topics.{latest_topics, update_advertised_topics}
use co_bridge.Ros1Bridge.Agreement.{NodeletAgrees, update_advertised_topics-NodeletAgrees}
use co_bridge.Tests.Setting.{env, start}

-- A pattern matches itself.
abbrev exact : Environment
exact = record env { regex_match = λ name pattern. name == pattern }

abbrev master : Master
master = record {
  running = λ calls. true;
  failure = λ calls call. none;
  executes = λ calls call. true;
  topics = λ calls. none;
  system_state = λ calls. none;
  param_names = λ calls. some ("/speed" ∷ "/secret" ∷ []);
  param = λ calls name. string "x";
  publisher_made = λ calls channel. true;
  message_description = λ name. returned (some "int32 data");
  service_description = λ name. returned (some ("", ""));
  service_type = λ calls name. returned "std_srvs/Empty";
  service_exists = λ calls name. false;
  service_reply = λ calls name bytes. none;
  resource = λ uri. [];
  shifted_out = λ n. 1;
}

abbrev options : NodeletOptions
options = record {
  topic_whitelist_patterns = [];
  param_whitelist_patterns = "/speed" ∷ [];
  service_whitelist_patterns = [];
  asset_uri_allowlist_patterns = [];
  capabilities = "services" ∷ [];
  max_update_ms = 5000;
}

abbrev nodelet : Nodelet
nodelet = record {
  server = start;
  advertised_topics = [];
  advertised_services =
      (
        3,
        record {
          name = "/reset";
          service_type = "std_srvs/Empty";
          request_schema = "";
          response_schema = "";
        },
      )
      ∷ [];
  subscriptions = [];
  client_advertised_topics = [];
  update_count = 0;
  subscribe_graph_updates = false;
  calls = [];
}

-- A struct that holds an array.
abbrev nested : ParameterValue
nested =
    of_struct (
      entry "gains" (of_array (cons (of_integer (pos 5)) (cons (of_string "a") nil))) Parameter.end)

value_from_ros-value_to_ros_example :
    and_then (value_to_ros nested) value_from_ros ≡ returned nested
unfolding IsRos1Value
value_from_ros-value_to_ros_example =
    value_from_ros-value_to_ros nested (((omega arith, (tt, tt)), tt))

get_parameters-got_example :
    let all = got master ("/secret" ∷ []) nodelet in
    (get_parameters exact master options ("/secret" ∷ []) (some "r") 4 nodelet).1
    ≡ (on_server (publish_parameter_values exact 4 all.0 (some "r")) all.1).1
get_parameters-got_example =
    get_parameters-got exact master options "/secret" [] (some "r") 4 nodelet

abbrev speed : Parameter
speed = record { name = "/speed"; value = of_integer (pos 5) }

set_parameters-calls_for_example :
    (set_parameters exact master options
      (record speed { name = "/secret" } ∷ speed ∷ [])
      none
      4
      nodelet).1
    ≡ record nodelet {
      calls = calls_for exact master options (record speed { name = "/secret" } ∷ speed ∷ []) [];
    }
set_parameters-calls_for_example =
    set_parameters-calls_for exact master options (record speed { name = "/secret" } ∷ speed ∷ []) 4
      nodelet

next_update_ms-bounds_example :
    ((count : ℕ)
      → (100 ≤ next_update_ms master count 5000)
        × ((next_update_ms master count 5000 ≡ 100) ⊎ (next_update_ms master count 5000 ≤ 5000)))
    × ((earlier later : ℕ)
        → earlier ≤ later
        → later < 64
        → next_update_ms master earlier 5000 ≤ next_update_ms master later 5000)
next_update_ms-bounds_example = next_update_ms-bounds master 5000

abbrev request : ServiceResponse
request = record { service_id = 3; call_id = 1; encoding = []; serv_data = [] }

update_advertised_services-AllCurrent_example :
    AllCurrent
      ("/start" ∷ [])
      (update_advertised_services exact master ("/start" ∷ []) nodelet).1.advertised_services
update_advertised_services-AllCurrent_example =
    update_advertised_services-AllCurrent exact master ("/start" ∷ []) nodelet

-- A master with one topic, which the whitelist allows; the nodelet advertises nothing yet.
abbrev topic_master : Master
topic_master = record master { topics = λ calls. some (("/other", "p/A") ∷ []) }

abbrev topic_options : NodeletOptions
topic_options = record options { topic_whitelist_patterns = "/other" ∷ [] }

one_topic :
    (ts : List (String × String))
    → ◌≡◌ {A = Option (List (String × String))} (some (("/other", "p/A") ∷ [])) (some ts)
    → length (latest_topics exact topic_master topic_options ts []) ≤ 1
unfolding latest_topics any contains
one_topic ts e = let same : ts ≡ ("/other", "p/A") ∷ [] = cc in rw same (omega arith)

update_advertised_topics-NodeletAgrees_example :
    NodeletAgrees (update_advertised_topics exact topic_master topic_options nodelet).1
unfolding find
update_advertised_topics-NodeletAgrees_example =
    update_advertised_topics-NodeletAgrees exact topic_master topic_options nodelet
      (λ ts e. let few = one_topic ts e in omega (arith, few))
      (record { distinct = tt; below = tt; same = λ k. refl })
