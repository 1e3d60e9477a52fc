-- ===== src/Tests/Bridge.antt =====
-- The ROS 2 bridge: a node with one topic, one publisher and one client.
use co_bridge.Base.{
  ℕ, ◌≤◌, ◌≡◌, ◌↔◌, refl, [], ◌∷◌, true, false, none, inl, nat_keys, All, contains, any, arith,
}
use co_bridge.Base.Assoc.{find, has_key}
use co_bridge.Base.Action.{returned, ◌>>◌}
use co_bridge.Server.Frames.{send_fetch_asset_response}
use co_bridge.Ros2Bridge.Qos.{
  EndpointInfo, reliable, best_effort, durability_volatile, keep_last, is_reliable,
  is_transient_local, select_qos,
}
use co_bridge.Ros2Bridge.Policies.{IsReliable, IsTransientLocal, select_qos_lem}
use co_bridge.Ros2Bridge.State.{Bridge, BridgeOptions, Ros, on_server}
use co_bridge.Ros2Bridge.Subscriptions.{subscribe, unsubscribe, clients_of}
use co_bridge.Ros2Bridge.Topics.{update_advertised_topics, latest_topics}
use co_bridge.Ros2Bridge.Handlers.{fetch_asset}
use co_bridge.Ros2Bridge.Invariant.{IsTracked, subscribe-IsTracked}
use co_bridge.Ros2Bridge.Advertised.{Follows, update_advertised_topics-Follows}
use co_bridge.Ros2Bridge.Assets.{asset_failure, fetch_asset-refused}
use co_bridge.Ros2Bridge.RoundTrip.{unsubscribe-subscribe}
use co_bridge.Ros2Bridge.Run
use co_bridge.Ros2Bridge.Coherence.{IsCoherent}
use co_bridge.Ros2Bridge.Together.{run-IsCoherent}
use co_bridge.Tests.Setting.{env, json, start, chatter}
use co_bridge.Tests.Definitions.{packages}

abbrev talker : EndpointInfo
talker = record {
  node_name = "talker";
  node_namespace = "/";
  qos_profile = record {
    reliability = reliable;
    durability = durability_volatile;
    history = keep_last;
    depth = 7;
  };
}

abbrev listener : EndpointInfo
listener = record talker { qos_profile = record talker.qos_profile { reliability = best_effort } }

abbrev ros : Ros
ros = record {
  running = λ calls. true;
  failure = λ calls call. none;
  publishers_info = λ calls topic. talker ∷ [];
  subscriptions_info = λ calls topic. listener ∷ [];
  service_names_and_types = λ calls. [];
  topic_names_and_types = λ calls. [];
  node_names = λ calls. [];
  services_of_node = λ calls name ns. [];
  service_available = λ calls service. true;
  resource = λ uri. 1 ∷ 2 ∷ [];
  params = λ calls names. [];
  now = λ calls. 0;
}

abbrev options : BridgeOptions
options = record {
  node_name = "cobridge";
  node_namespace = "/";
  min_qos_depth = 1;
  max_qos_depth = 25;
  topic_whitelist_patterns = ".*" ∷ [];
  service_whitelist_patterns = ".*" ∷ [];
  asset_uri_allowlist_patterns = ".*" ∷ [];
  include_hidden = false;
  capabilities = "connectionGraph" ∷ [];
}

abbrev bridge : Bridge
bridge = record {
  server = start;
  definitions = [];
  advertised_topics = (1, chatter) ∷ [];
  advertised_services = [];
  subscriptions = [];
  client_advertised_topics = [];
  service_clients = [];
  subscribe_graph_updates = false;
  ros_calls = [];
}

bridge-IsTracked : IsTracked bridge
unfolding has_key
bridge-IsTracked = record { tracked = λ k h. cc }

select_qos_lem_example :
    ((1 ≤ (select_qos 1 25 (talker ∷ listener ∷ [])).depth)
      × ((select_qos 1 25 (talker ∷ listener ∷ [])).depth ≤ 25))
    × ((is_reliable (select_qos 1 25 (talker ∷ listener ∷ [])).reliability ≡ true)
        ↔ All IsReliable (talker ∷ listener ∷ []))
    × ((is_transient_local (select_qos 1 25 (talker ∷ listener ∷ [])).durability ≡ true)
        ↔ All IsTransientLocal (talker ∷ listener ∷ []))
select_qos_lem_example = select_qos_lem 1 25 (talker ∷ listener ∷ []) (omega arith)

unsubscribe-subscribe_example :
    (after : Bridge) × ((subscribe ros options 1 4 >> unsubscribe 1 4) bridge
      ≡ (returned tt, after))
    × ((i x : ℕ) → find x (clients_of i after) ≡ find x (clients_of i bridge))
unfolding find has_key clients_of
unsubscribe-subscribe_example = unsubscribe-subscribe ros options 1 4 chatter bridge refl refl refl

-- The bridge with a client on its channel.
abbrev in_use : Bridge
in_use = (subscribe ros options 1 4 bridge).1

update_advertised_topics-Follows_example :
    Follows env ros options packages 3
      (("/other", "p/A") ∷ [])
      (update_advertised_topics env ros options packages 3 (("/other", "p/A" ∷ []) ∷ []) in_use).1
unfolding latest_topics any contains
update_advertised_topics-Follows_example =
    update_advertised_topics-Follows env ros options packages 3 (("/other", "p/A" ∷ []) ∷ [])
      (("/other", "p/A") ∷ []) in_use refl refl
      (subscribe-IsTracked ros options 1 4 bridge bridge-IsTracked)

fetch_asset-refused_example :
    fetch_asset env ros options "package://x/../secret" 9 4 bridge
    ≡ on_server (send_fetch_asset_response env 4 (asset_failure "package://x/../secret" 9)) bridge
fetch_asset-refused_example =
    fetch_asset-refused env ros options "package://x/../secret" 9 4 bridge
      (inl ("package://x/", "/secret", refl))

-- A node whose only topic is /other, and a bridge and its server before the first round.
abbrev other_ros : Ros
other_ros = record ros { topic_names_and_types = λ calls. ("/other", "p/A" ∷ []) ∷ [] }

abbrev idle : Bridge
idle = record bridge { advertised_topics = [] }

idle-IsCoherent : IsCoherent idle
unfolding find has_key
idle-IsCoherent = record {
  agrees = record { distinct = tt; below = tt; same = λ k. refl };
  tracked = record { tracked = λ k h. cc };
}

run-IsCoherent_example : IsCoherent (
    Run.run env json other_ros options packages 3
      (Run.poll_start ∷ Run.opened 4 ∷ Run.subscribe 1 4 ∷ Run.closed 4 ∷ [])
      idle)
unfolding latest_topics any contains
run-IsCoherent_example =
    run-IsCoherent env json other_ros options packages 3
      (Run.poll_start ∷ Run.opened 4 ∷ Run.subscribe 1 4 ∷ Run.closed 4 ∷ []) idle
      (omega arith, (tt, (tt, (tt, tt)))) idle-IsCoherent
