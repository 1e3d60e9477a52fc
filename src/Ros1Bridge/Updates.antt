-- ===== src/Ros1Bridge/Updates.antt =====
-- update_advertised_topics_and_services of the ROS 1 nodelet, and the time until it runs again.
use co_bridge.Base.{
  ℕ, String, List, [], ◌∷◌, Bool, not, ◌||◌, Option, none, some, nat_keys, text_keys, contains,
  insert, ltb, if◌then◌else◌, ◌+◌, ◌%◌, ◌^◌,
}
use co_bridge.Base.Assoc.{emplace}
use co_bridge.Base.Action.{pure, gets, modify, ◌>>=◌, ◌>>◌}
use co_bridge.Server.Types.{MapOfSets}
use co_bridge.Server.Environment.{Environment}
use co_bridge.Server.Graph.{update_connection_graph}
use co_bridge.Server.Subscriptions.{is_whitelisted}
use co_bridge.Ros1Bridge.State.{
  Nodelet, NodeletAction, NodeletOptions, Master, SystemState, create_timer, ask, on_server,
}
use co_bridge.Ros1Bridge.Topics.{update_advertised_topics}
use co_bridge.Ros1Bridge.Services.{update_advertised_services}

-- rpc_value_to_string_set, from the entries on.
unfoldable pub string_set : List String → List String → List String
unfolding insert
string_set [] set = set
string_set (name ∷ names) set = string_set names (insert name set)

unfoldable pub has_capability : NodeletOptions → String → Bool
unfolding contains
has_capability options capability = contains capability options.capabilities

-- `size_t(1) << n`, which C++ defines for n < 64; for others the machine gives something.
unfoldable pub one_shifted : Master → ℕ → ℕ
one_shifted master n = if ltb n 64 then 2 ^ n else master.shifted_out n

-- The milliseconds until the next update. The source compares them as doubles, which are exact up to 2^53.
unfoldable pub next_update_ms : Master → ℕ → ℕ → ℕ
unfolding one_shifted
next_update_ms master update_count max_update_ms =
    let shifted = one_shifted master update_count in
    let capped = if ltb max_update_ms shifted then max_update_ms else shifted in
    if ltb 100 capped then capped else 100

module _ (env : Environment) (master : Master) (options : NodeletOptions) where
  -- The loop over the publishers, the subscribers or the services of the system's state.
  unfoldable pub nodes_by_name : List String → List (String × List String) → MapOfSets → MapOfSets
  unfolding is_whitelisted string_set
  nodes_by_name patterns [] m = m
  nodes_by_name patterns ((name, nodes) ∷ rest) m =
      nodes_by_name patterns rest
        (if is_whitelisted env name patterns then emplace name (string_set nodes []) m else m)

  unfoldable pub service_names : List (String × List String) → List String
  unfolding is_whitelisted
  service_names [] = []
  service_names ((name, nodes) ∷ rest) =
      let names = service_names rest in
      if is_whitelisted env name options.service_whitelist_patterns then name ∷ names else names

  -- What was queried, if anything was: no answer leaves all of it empty.
  abbrev pub queried : Option SystemState → SystemState
  queried none = record { publishers = []; subscribers = []; services = [] }
  queried (some state) = state

  -- The stages after the query.
  unfoldable pub update_all : SystemState → NodeletAction Unit
  unfolding has_capability on_server update_advertised_topics update_advertised_services
      service_names nodes_by_name
  update_all state = do
    update_advertised_topics env master options
    if has_capability options "services"
        then update_advertised_services env master (service_names state.services)
        else pure tt
    wanted ← gets (λ s. s.subscribe_graph_updates)
    if wanted
        then on_server (
            update_connection_graph env
              (nodes_by_name options.topic_whitelist_patterns state.publishers [])
              (nodes_by_name options.topic_whitelist_patterns state.subscribers [])
              (nodes_by_name options.service_whitelist_patterns state.services []))
        else pure tt

  unfoldable pub schedule : NodeletAction Unit
  unfolding next_update_ms ask
  schedule = do
    modify (λ s. record s { update_count = (s.update_count + 1) % 2 ^ 64 })
    ms ← gets (λ s. next_update_ms master s.update_count options.max_update_ms)
    ask master (create_timer ms)

  unfoldable pub update_advertised_topics_and_services : NodeletAction Unit
  unfolding update_all schedule has_capability
  update_advertised_topics_and_services = do
    running ← gets (λ s. master.running s.calls)
    wanted ← gets (λ (s : Nodelet). s.subscribe_graph_updates)
    answer ← gets (λ s. master.system_state s.calls)
    if not running
        then pure tt
        else (if has_capability options "services" || wanted
            then update_all (queried answer)
            else update_all (queried none))
          >> schedule

unfoldable pub subscribe_connection_graph : Bool → NodeletAction Unit
subscribe_connection_graph wanted = modify (λ s. record s { subscribe_graph_updates = wanted })
