-- ===== src/Ros1Bridge/Publications.antt =====
-- client_advertise, client_unadvertise and client_message of the ROS 1 nodelet.
use Prim.Native.String.{◌++◌ as append}
use co_bridge.Base.{
  ℕ, String, [], not, ◌&&◌, none, some, nat_keys, text_keys, ◌==◌, is_empty, length, if◌then◌else◌,
}
use co_bridge.Base.Assoc.{Assoc, find, has_key, emplace, erase, update}
use co_bridge.Base.Errors.{
  with_id, client_channel_error, already_advertised, no_advertised_topics, topic_not_advertised,
  publish_failed, text,
}
use co_bridge.Base.Action.{pure, throw, gets, lift, modify, try_catch, ◌>>=◌, ◌>>◌}
use co_bridge.Server.Types.{ClientAdvertisement, ClientMessage}
use co_bridge.Server.Environment.{Environment}
use co_bridge.Ros2Bridge.Publications.{payload_of}
use co_bridge.Ros1Bridge.State.{Nodelet, NodeletAction, Master, advertise_topic, publish, ask}
use co_bridge.Ros1Bridge.Subscriptions.{rethrow_as}

-- A client's channel and the topic that its publisher is for.
abbrev pub ClientPublications : Type 0
ClientPublications = Assoc ℕ String

unfoldable pub publications_at : ℕ → Nodelet → ClientPublications
publications_at hdl s = elim (find hdl s.client_advertised_topics) [ none ↦ [] | some m ↦ m ]

abbrev pub endpoint_of : Environment → ℕ → Nodelet → String
endpoint_of env hdl s = env.endpoint s.server.trace hdl

abbrev pub error_of : {A : Type 0} → ClientAdvertisement → String → NodeletAction A
error_of channel message = throw (with_id client_channel_error channel.channel_id (text message))

module _ (env : Environment) (master : Master) where
  -- From the description of the message on.
  unfoldable pub make_publisher : ClientAdvertisement → ℕ → NodeletAction Unit
  unfolding ask
  make_publisher channel hdl = do
    description ← lift (master.message_description channel.schema_name)
    elim description [
      | none ↦ error_of channel (
          append "Failed to retrieve type information of data type '"
            (append channel.schema_name (append "'. Unable to advertise topic " channel.topic)))
      | some definition ↦ (do
        made ← gets (λ s. master.publisher_made s.calls channel)
        ask master (advertise_topic channel)
        if made
            then modify (λ s. record s {
              client_advertised_topics =
                  update hdl (emplace channel.channel_id channel.topic) s.client_advertised_topics;
            })
            else error_of channel (
                append "Failed to create publisher for topic "
                  (append channel.topic (append "(" (append channel.schema_name ")")))))
    ]

  unfoldable pub client_advertise : ClientAdvertisement → ℕ → NodeletAction Unit
  unfolding publications_at make_publisher
  client_advertise channel hdl =
      if not (channel.encoding == "ros1")
      then error_of channel "Unsupported encoding. Only 'ros1' encoding is supported at the moment."
      else (do
        inserted ← gets (λ s. not (has_key hdl s.client_advertised_topics))
        modify
            (λ s. record s { client_advertised_topics = emplace hdl [] s.client_advertised_topics })
        is_advertised ← gets (λ s. has_key channel.channel_id (publications_at hdl s))
        endpoint ← gets (endpoint_of env hdl)
        if not inserted && is_advertised
            then throw (
                with_id client_channel_error channel.channel_id
                  (already_advertised endpoint channel.channel_id))
            else make_publisher channel hdl)

  -- The topic of a client's channel, or the error that both functions below throw.
  unfoldable pub publisher_at : ℕ → ℕ → NodeletAction String
  publisher_at channel_id hdl = do
    found ← gets (λ (s : Nodelet). find hdl s.client_advertised_topics)
    endpoint ← gets (endpoint_of env hdl)
    elim found [
      | none ↦
          throw (with_id client_channel_error channel_id (no_advertised_topics endpoint channel_id))
      | some m ↦ elim (find {V = String} channel_id m) [
        | none ↦ throw (
            with_id client_channel_error channel_id
              (topic_not_advertised endpoint channel_id (length m)))
        | some topic ↦ pure topic
      ]
    ]

  unfoldable pub client_unadvertise : ℕ → ℕ → NodeletAction Unit
  unfolding publisher_at publications_at
  client_unadvertise channel_id hdl = do
    publisher_at channel_id hdl
    modify (λ s.
        let m = erase channel_id (publications_at hdl s) in
        record s {
          client_advertised_topics =
              if is_empty m
              then erase hdl s.client_advertised_topics
              else update hdl (λ old. m) s.client_advertised_topics;
        })

  unfoldable pub client_message : ClientMessage → ℕ → NodeletAction Unit
  unfolding publisher_at ask
  client_message message hdl = do
    topic ← publisher_at message.advertisement.channel_id hdl
    try_catch (ask master (publish topic (payload_of message))) (
        rethrow_as (λ w.
          with_id client_channel_error message.advertisement.channel_id (publish_failed topic w)))
