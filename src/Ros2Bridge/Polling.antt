-- ===== src/Ros2Bridge/Polling.antt =====
-- CoBridge::rosgraph_poll_thread: its start, and one round of its loop.
use co_bridge.Base.{none, some, if◌then◌else◌}
use co_bridge.Base.Errors.{Exception}
use co_bridge.Base.Action.{pure, throw, gets, try_catch, ◌>>=◌, ◌>>◌}
use co_bridge.Server.Environment.{Environment}
use co_bridge.Server.Parameters.{what_of}
use co_bridge.MessageDefinitions.Specs.{Packages}
use co_bridge.Ros2Bridge.State.{BridgeAction, BridgeOptions, Ros}
use co_bridge.Ros2Bridge.Topics.{TopicNamesAndTypes, update_advertised_topics}
use co_bridge.Ros2Bridge.Services.{update_advertised_services}
use co_bridge.Ros2Bridge.Handlers.{update_connection_graph}
use co_bridge.Base.{ℕ}

-- The handler of std::exception, which only logs.
abbrev pub logged : Exception → BridgeAction Unit
logged x = elim (what_of x) [ none ↦ throw x | some w ↦ pure tt ]

module _ (env : Environment) (ros : Ros) (options : BridgeOptions) (packages : Packages)
    (fuel : ℕ) where
  unfoldable pub poll_start : BridgeAction Unit
  unfolding update_advertised_topics update_advertised_services
  poll_start = do
    topics ← gets (λ b. ros.topic_names_and_types b.ros_calls)
    update_advertised_topics env ros options packages fuel topics
    update_advertised_services env ros options packages fuel

  -- The updates for one list of topics.
  unfoldable pub update_for : TopicNamesAndTypes → BridgeAction Unit
  unfolding update_advertised_topics update_advertised_services update_connection_graph
  update_for topics = do
    update_advertised_topics env ros options packages fuel topics
    update_advertised_services env ros options packages fuel
    wanted ← gets (λ b. b.subscribe_graph_updates)
    if wanted then update_connection_graph env ros options topics else pure tt

  -- A round in which the graph has changed.
  unfoldable pub graph_changed : BridgeAction Unit
  unfolding update_for
  graph_changed =
      try_catch (gets (λ b. ros.topic_names_and_types b.ros_calls) >>= update_for) logged
