-- ===== src/Ros2Bridge/Advertised.antt =====
-- update_advertised_topics: what is advertised afterwards, and the invariant of the subscriptions.
use co_bridge.Base.{
  ℕ, List, [], ◌∷◌, true, ◌||◌, ==_iff, nat_keys, ◌≡◌, refl, sym, ◌∙◌, contains, arith, All,
}
use co_bridge.Base.Assoc.{has_key}
use co_bridge.Base.Action.{returned, modify, ◌>>=◌}
use co_bridge.Base.Action.Yields.{Yields, Yields-bind, Yields-modify}
use co_bridge.Server.Types.{ChannelWithoutId, ServerAction}
use co_bridge.Server.Environment.{Environment}
use co_bridge.Server.Channels.{add_channels, remove_channels}
use co_bridge.MessageDefinitions.Specs.{Packages}
use co_bridge.Ros2Bridge.State.{Bridge, BridgeOptions, Ros, on_server}
use co_bridge.Ros2Bridge.Topics.{
  pair_keys, TopicAndDatatype, TopicNamesAndTypes, Removal, remove_stale, erase_keys,
  store_channels, latest_topics, advertise_latest, update_advertised_topics,
}
use co_bridge.Ros2Bridge.Invariant.{IsTracked}
use co_bridge.Ros2Bridge.Stale.{
  IsLatest, AllLatest, remove_stale-latest, remove_stale-splits, has_key-erase_keys,
  store_channels-latest, store_channels-keeps,
}
use co_bridge.Ros2Bridge.Latest.{OnReturn-unit, channels_to_add-Yields}

contains_self :
    (latest rest : List TopicAndDatatype)
    → ((t : TopicAndDatatype) → contains t rest ≡ true → contains t latest ≡ true)
    → All (λ t. contains t latest ≡ true) rest
unfolding contains
contains_self latest [] h = tt
contains_self latest (t ∷ rest) h =
    (h t (rw ((==_iff t t).1 refl) refl), contains_self latest rest (λ u k. h u (ground arith)))

module _ (env : Environment) (ros : Ros) (options : BridgeOptions) (packages : Packages) (fuel : ℕ)
    (latest : List TopicAndDatatype) where
  -- Both at once, from the removal on.
  pub record Follows (b : Bridge) : Type 0 where
    pub tracking : IsTracked b
    pub latest_only : AllLatest latest b.advertised_topics

  removal-Follows :
      (b : Bridge) (r : Removal)
      → r ≡ remove_stale latest b.advertised_topics
      → IsTracked b
      → Follows (record b {
        advertised_topics = r.kept;
        subscriptions = erase_keys r.ids b.subscriptions;
      })
  removal-Follows b r e h = record {
    tracking = record {
      tracked = λ k g.
          let f = sym (has_key-erase_keys k r.ids b.subscriptions) ∙ g in
          let old = h.tracked k (ground arith) in
          let split : (contains k r.ids || has_key k r.kept) ≡ true =
            rw e (sym (remove_stale-splits k latest b.advertised_topics) ∙ old) in
          ground arith;
    };
    latest_only = rw e (remove_stale-latest latest b.advertised_topics);
  }

  Follows-on_server :
      {A : Type 0} (m : ServerAction A) → Yields Follows (λ _ _. Unit {0}) (on_server m)
  unfolding on_server
  Follows-on_server m = record {
    at = λ b h. (
      record { tracking = record { tracked = h.tracking.tracked }; latest_only = h.latest_only },
      OnReturn-unit (m b.server).0,
    );
  }

  Follows-store :
      (ids : List ℕ) (cs : List ChannelWithoutId)
      → All (IsLatest latest) cs
      → Yields Follows
          (λ _ _. Unit {0})
          (modify (λ b. record b { advertised_topics = store_channels ids cs b.advertised_topics }))
  Follows-store ids cs h = Yields-modify _ λ b f. record {
    tracking = record {
      tracked = λ k g. store_channels-keeps k ids cs b.advertised_topics (f.tracking.tracked k g);
    };
    latest_only = store_channels-latest latest ids cs b.advertised_topics h f.latest_only;
  }

  pub advertise_latest-Follows :
      (b : Bridge)
      → IsTracked b
      → Follows (advertise_latest env ros options packages fuel latest b).1
  unfolding advertise_latest ◌>>=◌
  advertise_latest-Follows b h =
      let r = remove_stale latest b.advertised_topics in
      ((Yields-bind (λ _. Unit {0}) _ _ _ (Follows-on_server (remove_channels env r.ids))
          λ _ _.
            Yields-bind (All (IsLatest latest)) _ _ _
              (channels_to_add-Yields Follows
                (λ c f d. record {
                  tracking = record { tracked = f.tracking.tracked };
                  latest_only = f.latest_only;
                })
                env ros options packages fuel latest r.kept latest
                (contains_self latest latest (λ t k. k)))
              λ cs k.
                Yields-bind (λ _. Unit {0}) _ _ _ (Follows-on_server (add_channels env cs))
                  λ ids _. Follows-store ids cs k).at
        _ (removal-Follows b r refl h)).0

-- While ROS runs and no topic name that has to be looked at is empty, update_advertised_topics leaves only
-- channels of the latest topics, in name and type, and every channel with subscriptions among them, even
-- where it throws; if each channel with subscriptions was advertised before.
pub update_advertised_topics-Follows :
    (env : Environment) (ros : Ros) (options : BridgeOptions) (packages : Packages) (fuel : ℕ)
    (topics : TopicNamesAndTypes) (latest : List TopicAndDatatype) (b : Bridge)
    → ros.running b.ros_calls ≡ true
    → latest_topics env ros options packages fuel topics [] ≡ returned latest
    → IsTracked b
    → Follows env ros options packages fuel latest
        (update_advertised_topics env ros options packages fuel topics b).1
unfolding update_advertised_topics ◌>>=◌
update_advertised_topics-Follows env ros options packages fuel topics latest b running e h =
    rw (running, e) (advertise_latest-Follows env ros options packages fuel latest b h)
