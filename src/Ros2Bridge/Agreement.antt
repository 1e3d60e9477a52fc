-- ===== src/Ros2Bridge/Agreement.antt =====
-- update_advertised_topics and the channels of the server.
use co_bridge.Base.{
  ℕ, suc, ◌+◌, ◌^◌, ◌<◌, ◌≤◌, refl, List, [], ◌∷◌, inl, inr, Bool-cases, Option, none, some,
  nat_keys, length, arith,
}
use co_bridge.Base.Assoc.{Assoc}
use co_bridge.Base.Action.{Outcome, returned, thrown, pure, continue, ◌>>=◌}
use co_bridge.Base.Action.Yields.{
  Yields, OnReturn, Yields-bind, Yields-if, Yields-pure, Yields-weaken,
}
use co_bridge.Server.Types.{ChannelWithoutId}
use co_bridge.Server.Environment.{Environment}
use co_bridge.MessageDefinitions.Specs.{Packages}
use co_bridge.Ros2Bridge.State.{Bridge, BridgeOptions, Ros, on_server}
use co_bridge.Ros2Bridge.Topics.{
  pair_keys, TopicAndDatatype, TopicNamesAndTypes, remove_stale, erase_keys, is_advertised,
  with_channel, latest_topics, channels_to_add, advertise_latest, update_advertised_topics,
}
use co_bridge.Ros2Bridge.Latest.{Fits, channel_for-Yields}
use co_bridge.Ros2Bridge.Offered.{Agrees}
use co_bridge.Ros2Bridge.Host.{Host, AgreesAt, register, follow, follow-AgreesIn}

pub bridge_host : Host Bridge
unfolding on_server
bridge_host = record {
  server = λ b. b.server;
  topics = λ b. b.advertised_topics;
  call = λ A m. on_server m;
  write = λ f b. record b { advertised_topics = f b.advertised_topics };
  outcome-call = λ A m b. refl;
  server-call = λ A m b. refl;
  topics-call = λ A m b. refl;
  server-write = λ f b. refl;
  topics-write = λ f b. refl;
}

-- The server of a bridge offers exactly the channels that the bridge advertises.
abbrev pub ServerAgrees : Bridge → Type 0
ServerAgrees b = Agrees b.advertised_topics b.server.next_channel_id b.server.channels

with_channel-length :
    (o : Option ChannelWithoutId) (cs : List ChannelWithoutId) (n : ℕ)
    → length cs ≤ n
    → length (with_channel o cs) ≤ suc n
with_channel-length none cs n h = omega (arith, h)
with_channel-length (some c) cs n h = omega (arith, h)

module _ (env : Environment) (ros : Ros) (options : BridgeOptions) (packages : Packages)
    (fuel : ℕ) where
  -- At most one channel is made for each topic, and the server is left alone.
  channels_to_add-AgreesAt :
      (n : ℕ) (advertised : Assoc ℕ ChannelWithoutId) (ts : List TopicAndDatatype)
      → Yields
          (AgreesAt bridge_host n)
          (λ _ cs. length cs ≤ length ts)
          (channels_to_add env ros options packages fuel advertised ts)
  unfolding channels_to_add bridge_host
  channels_to_add-AgreesAt n advertised [] = Yields-pure (λ cs. length cs ≤ 0) [] (omega arith)
  channels_to_add-AgreesAt n advertised (t ∷ ts) =
      let others = channels_to_add-AgreesAt n advertised ts in
      Yields-if _ (is_advertised t advertised) _ _
        (Yields-weaken (λ cs. length cs ≤ length ts) (λ cs. length cs ≤ suc (length ts)) _
          (λ cs h. omega (arith, h)) others)
        (Yields-bind (Fits t) _ _ _
          (channel_for-Yields (AgreesAt bridge_host n)
            (λ b h c. record { agrees = h.agrees; at_number = h.at_number }) env ros options
            packages fuel [] t)
          λ o f.
            Yields-bind (λ cs. length cs ≤ length ts) _ _ _ others
              λ cs k.
                Yields-pure (λ ds. length ds ≤ suc (length ts)) _
                  (with_channel-length o cs (length ts) k))

  advertise_latest-Agrees :
      (latest : List TopicAndDatatype) (b : Bridge)
      → b.server.next_channel_id + length latest < 2 ^ 32
      → ServerAgrees b
      → ServerAgrees (advertise_latest env ros options packages fuel latest b).1
  unfolding advertise_latest bridge_host on_server follow register ◌>>=◌
  advertise_latest-Agrees latest b room h =
      let r = remove_stale latest b.advertised_topics in
      follow-AgreesIn bridge_host env latest b.advertised_topics
        (channels_to_add env ros options packages fuel r.kept latest) (length latest)
        (record b { advertised_topics = r.kept; subscriptions = erase_keys r.ids b.subscriptions })
        refl h room (channels_to_add-AgreesAt b.server.next_channel_id r.kept latest)

-- While channel ids last for all topics, update_advertised_topics keeps it so that the server offers exactly the
-- channels that the bridge advertises, with the same fields under the same ids, also where it throws.
pub update_advertised_topics-ServerAgrees :
    (env : Environment) (ros : Ros) (options : BridgeOptions) (packages : Packages) (fuel : ℕ)
    (topics : TopicNamesAndTypes) (b : Bridge)
    → OnReturn
        (λ latest. b.server.next_channel_id + length latest < 2 ^ 32)
        (latest_topics env ros options packages fuel topics [])
    → ServerAgrees b
    → ServerAgrees (update_advertised_topics env ros options packages fuel topics b).1
unfolding update_advertised_topics ◌>>=◌ pure
update_advertised_topics-ServerAgrees env ros options packages fuel topics b room h =
    elim (Bool-cases (ros.running b.ros_calls)) [
      | inl up ↦ rw up (from _ room)
      | inr down ↦ rw down h
    ]
  where
    from :
        (o : Outcome (List TopicAndDatatype))
        → OnReturn (λ latest. b.server.next_channel_id + length latest < 2 ^ 32) o
        → ServerAgrees
            (continue o (λ latest. advertise_latest env ros options packages fuel latest) b).1
    from (returned latest) r = advertise_latest-Agrees env ros options packages fuel latest b r h
    from (thrown x) r = h
