-- ===== src/Ros2Bridge/Publications.antt =====
-- CoBridge::client_advertise, client_unadvertise and client_message: what clients publish.
use co_bridge.Base.{
  ℕ, String, List, [], ◌∷◌, not, ◌&&◌, ◌||◌, none, some, nat_keys, text_keys, ◌==◌, is_empty,
  length, drop, if◌then◌else◌,
}
use co_bridge.Base.Assoc.{Assoc, find, has_key, emplace, erase, update}
use co_bridge.Base.Errors.{
  with_id, client_channel_error, already_advertised, publisher_failed, no_advertised_topics,
  topic_not_advertised,
}
use co_bridge.Base.Action.{pure, throw, gets, modify, try_catch, ◌>>=◌, ◌>>◌}
use co_bridge.Server.Types.{ClientAdvertisement, ClientMessage}
use co_bridge.Server.Environment.{Environment}
use co_bridge.Ros2Bridge.Qos.{
  QosProfile, EndpointInfo, History, history_system_default, history_unknown, keep_last,
  other_history, other_reliability, other_durability,
}
use co_bridge.Ros2Bridge.State.{
  Bridge, BridgeAction, BridgeOptions, Ros, RosPublisher, create_publisher, publish, call_ros,
}
use co_bridge.Ros2Bridge.Subscriptions.{rethrow_as}

abbrev pub ClientPublications : Type 0
ClientPublications = Assoc ℕ RosPublisher

unfoldable pub publications_at : ℕ → Bridge → ClientPublications
publications_at hdl b = elim (find hdl b.client_advertised_topics) [ none ↦ [] | some m ↦ m ]

-- rclcpp::SystemDefaultsQoS
abbrev pub system_defaults : QosProfile
system_defaults = record {
  reliability = other_reliability;
  durability = other_durability;
  history = history_system_default;
  depth = 0;
}

abbrev pub known_history : History → History
known_history history_unknown = history_system_default
known_history keep_last = keep_last
known_history history_system_default = history_system_default
known_history other_history = other_history

-- The profile of the first publisher of another node, or the default.
unfoldable pub publisher_qos : BridgeOptions → List EndpointInfo → QosProfile
publisher_qos options [] = system_defaults
publisher_qos options (p ∷ ps) =
    if not (p.node_name == options.node_name) || not (p.node_namespace == options.node_namespace)
    then record p.qos_profile { history = known_history p.qos_profile.history }
    else publisher_qos options ps

abbrev pub endpoint_of : Environment → ℕ → Bridge → String
endpoint_of env hdl b = env.endpoint b.server.trace hdl

-- ClientMessage::getData and getLength.
abbrev pub payload_of : ClientMessage → List ℕ
payload_of message = drop 5 message.bytes

module _ (env : Environment) (ros : Ros) (options : BridgeOptions) where
  unfoldable pub client_advertise : ClientAdvertisement → ℕ → BridgeAction Unit
  unfolding publications_at publisher_qos call_ros
  client_advertise advertisement hdl = do
    is_first_publication ← gets (λ b. not (has_key hdl b.client_advertised_topics))
    modify (λ b. record b { client_advertised_topics = emplace hdl [] b.client_advertised_topics })
    is_advertised ← gets (λ b. has_key advertisement.channel_id (publications_at hdl b))
    endpoint ← gets (endpoint_of env hdl)
    if not is_first_publication && is_advertised
        then throw (
            with_id client_channel_error advertisement.channel_id
              (already_advertised endpoint advertisement.channel_id))
        else (do
          others ← gets (λ b. ros.publishers_info b.ros_calls advertisement.topic)
          let publisher : RosPublisher = record {
            topic = advertisement.topic;
            datatype = advertisement.schema_name;
            qos = publisher_qos options others;
          }
          try_catch
              (call_ros ros (create_publisher publisher)
                >> modify (λ b. record b {
                  client_advertised_topics =
                      update hdl (emplace advertisement.channel_id publisher)
                        b.client_advertised_topics;
                }))
              (rethrow_as
                (λ w. with_id client_channel_error advertisement.channel_id (publisher_failed w))))

  -- The publisher of a client's channel, or the error that both functions below throw.
  unfoldable pub publisher_at : ℕ → ℕ → BridgeAction RosPublisher
  publisher_at channel_id hdl = do
    found ← gets (λ (b : Bridge). find hdl b.client_advertised_topics)
    endpoint ← gets (endpoint_of env hdl)
    elim found [
      | none ↦
          throw (with_id client_channel_error channel_id (no_advertised_topics endpoint channel_id))
      | some m ↦ elim (find {V = RosPublisher} channel_id m) [
        | none ↦ throw (
            with_id client_channel_error channel_id
              (topic_not_advertised endpoint channel_id (length m)))
        | some publisher ↦ pure publisher
      ]
    ]

  unfoldable pub client_unadvertise : ℕ → ℕ → BridgeAction Unit
  unfolding publisher_at publications_at
  client_unadvertise channel_id hdl = do
    publisher_at channel_id hdl
    modify (λ b.
        let m = erase channel_id (publications_at hdl b) in
        record b {
          client_advertised_topics =
              if is_empty m
              then erase hdl b.client_advertised_topics
              else update hdl (λ old. m) b.client_advertised_topics;
        })

  unfoldable pub client_message : ClientMessage → ℕ → BridgeAction Unit
  unfolding publisher_at call_ros
  client_message message hdl = do
    publisher ← publisher_at message.advertisement.channel_id hdl
    call_ros ros (publish publisher (payload_of message))
