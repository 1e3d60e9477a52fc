-- ===== src/Ros1Bridge/Agreement.antt =====
-- update_advertised_topics of the ROS 1 nodelet and the channels of the server.
use co_bridge.Base.{
  ℕ, suc, ◌+◌, ◌^◌, ◌<◌, ◌≤◌, ◌≡◌, refl, String, List, [], ◌∷◌, inl, inr, Option, Option-cases,
  none, some, nat_keys, length, arith,
}
use co_bridge.Base.Assoc.{Assoc}
use co_bridge.Base.Errors.{What, Exception}
use co_bridge.Base.Action.{throw, pure, ◌>>=◌}
use co_bridge.Base.Action.Yields.{
  Yields, Yields-bind, Yields-if, Yields-pure, Yields-throw, Yields-lift, Yields-try_catch,
  Yields-weaken,
}
use co_bridge.Server.Types.{ChannelWithoutId}
use co_bridge.Server.Environment.{Environment}
use co_bridge.Server.Parameters.{what_of}
use co_bridge.Ros2Bridge.Topics.{
  pair_keys, TopicAndDatatype, remove_stale, erase_keys, is_advertised,
}
use co_bridge.Ros2Bridge.Latest.{OnReturn-unit}
use co_bridge.Ros2Bridge.Offered.{Agrees}
use co_bridge.Ros2Bridge.Host.{Host, AgreesAt, register, follow, follow-AgreesIn}
use co_bridge.Ros1Bridge.State.{Nodelet, NodeletOptions, Master, on_server}
use co_bridge.Ros1Bridge.Topics.{
  channel_with, schema_of, empty_schema, latest_topics, channel_for, channels_to_add,
  advertise_latest, update_advertised_topics,
}

pub nodelet_host : Host Nodelet
unfolding on_server
nodelet_host = record {
  server = λ s. s.server;
  topics = λ s. s.advertised_topics;
  call = λ A m. on_server m;
  write = λ f s. record s { advertised_topics = f s.advertised_topics };
  outcome-call = λ A m s. refl;
  server-call = λ A m s. refl;
  topics-call = λ A m s. refl;
  server-write = λ f s. refl;
  topics-write = λ f s. refl;
}

-- The server of a nodelet offers exactly the channels that the nodelet advertises.
abbrev pub NodeletAgrees : Nodelet → Type 0
NodeletAgrees s = Agrees s.advertised_topics s.server.next_channel_id s.server.channels

empty_schema-Yields :
    (P : Nodelet → Type 0) (x : Exception) → Yields P (λ _ _. Unit {0}) (empty_schema x)
empty_schema-Yields P x = go (what_of x)
  where
    go :
        (o : Option What)
        → Yields {A = String} P (λ _ _. Unit {0}) (elim o [ none ↦ throw x | some w ↦ pure "" ])
    go none = Yields-throw _ x
    go (some w) = Yields-pure (λ _. Unit) "" tt

module _ (env : Environment) (master : Master) (options : NodeletOptions) where
  channel_for-Yields :
      (P : Nodelet → Type 0) (t : TopicAndDatatype)
      → Yields P (λ _ _. Unit {0}) (channel_for env master options t)
  unfolding channel_for
  channel_for-Yields P t =
      Yields-bind (λ _. Unit {0}) _ _ _
        (Yields-try_catch (λ _. Unit {0}) _ _
          (Yields-bind (λ _. Unit {0}) _ _ _
            (Yields-lift (λ _. Unit) (master.message_description t.1) (OnReturn-unit _))
            (λ d _. Yields-pure (λ _. Unit) (schema_of d) tt))
          (empty_schema-Yields P))
        (λ schema _. Yields-pure (λ _. Unit) (channel_with t schema) tt)

  -- At most one channel is made for each topic, and the server is left alone.
  channels_to_add-AgreesAt :
      (n : ℕ) (advertised : Assoc ℕ ChannelWithoutId) (ts : List TopicAndDatatype)
      → Yields
          (AgreesAt nodelet_host n)
          (λ _ cs. length cs ≤ length ts)
          (channels_to_add env master options advertised ts)
  unfolding channels_to_add nodelet_host
  channels_to_add-AgreesAt n advertised [] = Yields-pure (λ cs. length cs ≤ 0) [] (omega arith)
  channels_to_add-AgreesAt n advertised (t ∷ ts) =
      let others = channels_to_add-AgreesAt n advertised ts in
      Yields-if _ (is_advertised t advertised) _ _
        (Yields-weaken (λ cs. length cs ≤ length ts) (λ cs. length cs ≤ suc (length ts)) _
          (λ cs h. omega (arith, h)) others)
        (Yields-bind (λ _. Unit {0}) _ _ _ (channel_for-Yields (AgreesAt nodelet_host n) t)
          λ c _.
            Yields-bind (λ cs. length cs ≤ length ts) _ _ _ others
              λ cs k. Yields-pure (λ ds. length ds ≤ suc (length ts)) (c ∷ cs) (omega (arith, k)))

  advertise_latest-Agrees :
      (latest : List TopicAndDatatype) (s : Nodelet)
      → s.server.next_channel_id + length latest < 2 ^ 32
      → NodeletAgrees s
      → NodeletAgrees (advertise_latest env master options latest s).1
  unfolding advertise_latest nodelet_host on_server follow register ◌>>=◌
  advertise_latest-Agrees latest s room h =
      let r = remove_stale latest s.advertised_topics in
      follow-AgreesIn nodelet_host env latest s.advertised_topics
        (channels_to_add env master options r.kept latest) (length latest)
        (record s { advertised_topics = r.kept; subscriptions = erase_keys r.ids s.subscriptions })
        refl h room (channels_to_add-AgreesAt s.server.next_channel_id r.kept latest)

  -- While channel ids last for all topics that the master gives, update_advertised_topics keeps it so that the
  -- server offers exactly the channels that the nodelet advertises, with the same fields under the same ids, also
  -- where it throws.
  pub update_advertised_topics-NodeletAgrees :
      (s : Nodelet)
      → ((ts : List TopicAndDatatype)
          → master.topics s.calls ≡ some ts
          → s.server.next_channel_id + length (latest_topics env master options ts []) < 2 ^ 32)
      → NodeletAgrees s
      → NodeletAgrees (update_advertised_topics env master options s).1
  unfolding update_advertised_topics ◌>>=◌ pure
  update_advertised_topics-NodeletAgrees s room h = elim (Option-cases (master.topics s.calls)) [
    | inl silent ↦ rw silent h
    | inr (ts, answer) ↦
        rw answer
          (advertise_latest-Agrees (latest_topics env master options ts []) s (room ts answer) h)
  ]
