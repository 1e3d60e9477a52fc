-- ===== src/Ros1Bridge/Topics.antt =====
-- update_advertised_topics of the ROS 1 nodelet: the channels follow the topics of the master.
use co_bridge.Base.{
  ℕ, String, List, [], ◌∷◌, Option, none, some, insert, text_keys, nat_keys, if◌then◌else◌,
}
use co_bridge.Base.Assoc.{Assoc}
use co_bridge.Base.Errors.{Exception}
use co_bridge.Base.Action.{pure, throw, gets, lift, modify, try_catch, ◌>>=◌, ◌>>◌}
use co_bridge.Server.Types.{ChannelWithoutId}
use co_bridge.Server.Environment.{Environment}
use co_bridge.Server.Channels.{add_channels, remove_channels}
use co_bridge.Server.Parameters.{what_of}
use co_bridge.Server.Subscriptions.{is_whitelisted}
use co_bridge.Ros2Bridge.Topics.{
  pair_keys, TopicAndDatatype, remove_stale, erase_keys, is_advertised, store_channels,
}
use co_bridge.Ros1Bridge.State.{Nodelet, NodeletAction, NodeletOptions, Master, on_server}

abbrev pub channel_with : TopicAndDatatype → String → ChannelWithoutId
channel_with t schema = record {
  topic = t.0;
  encoding = "ros1";
  schema_name = t.1;
  schema = schema;
  schema_encoding = none;
}

abbrev pub schema_of : Option String → String
schema_of none = ""
schema_of (some definition) = definition

-- The handler of std::exception: the channel is advertised with an empty schema.
abbrev pub empty_schema : Exception → NodeletAction String
empty_schema x = elim (what_of x) [ none ↦ throw x | some w ↦ pure "" ]

module _ (env : Environment) (master : Master) (options : NodeletOptions) where
  unfoldable pub latest_topics :
      List TopicAndDatatype → List TopicAndDatatype → List TopicAndDatatype
  unfolding is_whitelisted insert
  latest_topics [] latest = latest
  latest_topics ((topic, datatype) ∷ rest) latest = latest_topics rest (
      if is_whitelisted env topic options.topic_whitelist_patterns
      then insert (topic, datatype) latest
      else latest)

  unfoldable pub channel_for : TopicAndDatatype → NodeletAction ChannelWithoutId
  channel_for t =
      try_catch (lift (master.message_description t.1) >>= λ d. pure (schema_of d)) empty_schema
      >>= λ schema. pure (channel_with t schema)

  -- The loop over the latest topics, beside the channels that are advertised.
  unfoldable pub channels_to_add :
      Assoc ℕ ChannelWithoutId → List TopicAndDatatype → NodeletAction (List ChannelWithoutId)
  unfolding channel_for is_advertised
  channels_to_add advertised [] = pure []
  channels_to_add advertised (t ∷ ts) =
      let others = channels_to_add advertised ts in
      if is_advertised t advertised
      then others
      else channel_for t >>= λ channel. others >>= λ cs. pure (channel ∷ cs)

  -- From the removal of stale channels on.
  unfoldable pub advertise_latest : List TopicAndDatatype → NodeletAction Unit
  unfolding remove_stale erase_keys on_server channels_to_add store_channels
  advertise_latest latest = do
    removal ← gets (λ (s : Nodelet). remove_stale latest s.advertised_topics)
    modify (λ s. record s {
      advertised_topics = removal.kept;
      subscriptions = erase_keys removal.ids s.subscriptions;
    })
    on_server (remove_channels env removal.ids)
    added ← channels_to_add removal.kept latest
    ids ← on_server (add_channels env added)
    modify (λ s. record s { advertised_topics = store_channels ids added s.advertised_topics })

  unfoldable pub update_advertised_topics : NodeletAction Unit
  unfolding latest_topics advertise_latest
  update_advertised_topics = gets (λ s. master.topics s.calls) >>= λ topics. elim topics [
    | none ↦ pure tt
    | some ts ↦ advertise_latest (latest_topics ts [])
  ]
