-- ===== src/Ros2Bridge/Coherence.antt =====
-- What the server offers, what the bridge advertises and what is subscribed to: how it stays coherent, also through
-- the rounds of the polling thread.
use co_bridge.Base.{ℕ, List, [], ◌+◌, ◌^◌, ◌<◌, length, inl, inr, Bool-cases}
use co_bridge.Base.Action.{Outcome, returned, thrown, pure, gets, try_catch, continue, ◌>>=◌}
use co_bridge.Base.Action.Keeps.{
  Keeps, Keeps-bind, Keeps-if, Keeps-option, Keeps-pure, Keeps-throw, Keeps-gets, Keeps-modify,
  Keeps-try_catch, bind-from, try_catch-from,
}
use co_bridge.Base.Action.Yields.{OnReturn}
use co_bridge.Server.Environment.{Environment, JsonLibrary}
use co_bridge.Server.Parameters.{what_of}
use co_bridge.MessageDefinitions.Specs.{Packages}
use co_bridge.Ros2Bridge.State.{Bridge, BridgeOptions, Ros}
use co_bridge.Ros2Bridge.Subscriptions
use co_bridge.Ros2Bridge.Topics.{
  TopicAndDatatype, TopicNamesAndTypes, latest_topics, advertise_latest, update_advertised_topics,
}
use co_bridge.Ros2Bridge.Polling
use co_bridge.Ros2Bridge.Polling.{logged}
use co_bridge.Ros2Bridge.Invariant.{IsTracked}
use co_bridge.Ros2Bridge.Advertised.{advertise_latest-Follows}
use co_bridge.Ros2Bridge.Agreement.{ServerAgrees, update_advertised_topics-ServerAgrees}
use co_bridge.Ros2Bridge.Quiet.{Quiet, Keeps-rethrow_as, Keeps-call_ros}
use co_bridge.Ros2Bridge.Services
use co_bridge.Ros2Bridge.Handling

Quiet-ServerAgrees : Quiet ServerAgrees
Quiet-ServerAgrees = record {
  calls = λ c b h. h;
  server = λ s b o h. rw (o.all, o.counter) h;
  definitions = λ c b h. h;
  services = λ m b h. h;
  publications = λ m b h. h;
  clients = λ m b h. h;
  wanted = λ w b h. h;
}

module _ (ros : Ros) (options : BridgeOptions) where
  pub Keeps-subscribe :
      (id hdl : ℕ) → Keeps ServerAgrees (Subscriptions.subscribe ros options id hdl)
  unfolding Subscriptions.subscribe Subscriptions.subscribe_channel Subscriptions.create_for_client
  Keeps-subscribe id hdl = Keeps-bind _ _ (Keeps-gets _) λ found.
      Keeps-option found _ _ (Keeps-throw _) λ channel. Keeps-bind _ _ (Keeps-gets _) λ first.
        Keeps-bind _ _ (Keeps-modify _ λ b h. h) λ _. Keeps-bind _ _ (Keeps-gets _) λ known.
          Keeps-if _ _ _ (Keeps-throw _) (
            Keeps-bind _ _ (Keeps-gets _) λ publishers.
              Keeps-try_catch _ _
                (Keeps-bind _ _ (Keeps-call_ros Quiet-ServerAgrees ros _)
                  λ _. Keeps-modify _ λ b h. h)
                (Keeps-rethrow_as ServerAgrees _))

  pub Keeps-unsubscribe : (id hdl : ℕ) → Keeps ServerAgrees (Subscriptions.unsubscribe id hdl)
  unfolding Subscriptions.unsubscribe Subscriptions.unsubscribe_client
  Keeps-unsubscribe id hdl = Keeps-bind _ _ (Keeps-gets _) λ advertised.
      Keeps-if _ _ _ (Keeps-throw _) (
        Keeps-bind _ _ (Keeps-gets _) λ found.
          Keeps-option found _ _ (Keeps-throw _)
            λ m. Keeps-if _ _ _ (Keeps-modify _ λ b h. h) (Keeps-throw _))

-- Both together.
pub record IsCoherent (b : Bridge) : Type 0 where
  pub agrees : ServerAgrees b
  pub tracked : IsTracked b

pub Quiet-IsCoherent : Quiet IsCoherent
Quiet-IsCoherent = record {
  calls = λ c b h. record { agrees = h.agrees; tracked = record { tracked = h.tracked.tracked } };
  server = λ s b o h. record {
    agrees = Quiet-ServerAgrees.server s b o h.agrees;
    tracked = record { tracked = h.tracked.tracked };
  };
  definitions =
      λ c b h. record { agrees = h.agrees; tracked = record { tracked = h.tracked.tracked } };
  services =
      λ m b h. record { agrees = h.agrees; tracked = record { tracked = h.tracked.tracked } };
  publications =
      λ m b h. record { agrees = h.agrees; tracked = record { tracked = h.tracked.tracked } };
  clients = λ m b h. record { agrees = h.agrees; tracked = record { tracked = h.tracked.tracked } };
  wanted = λ w b h. record { agrees = h.agrees; tracked = record { tracked = h.tracked.tracked } };
}

module _ (env : Environment) (json : JsonLibrary) (ros : Ros) (options : BridgeOptions)
    (packages : Packages) (fuel : ℕ) where
  update_advertised_topics-IsTracked :
      (topics : TopicNamesAndTypes) (b : Bridge)
      → IsTracked b
      → IsTracked (update_advertised_topics env ros options packages fuel topics b).1
  unfolding update_advertised_topics pure ◌>>=◌
  update_advertised_topics-IsTracked topics b h = elim (Bool-cases (ros.running b.ros_calls)) [
    | inl up ↦ rw up (from (latest_topics env ros options packages fuel topics []))
    | inr down ↦ rw down h
  ]
    where
      from :
          (o : Outcome (List TopicAndDatatype))
          → IsTracked
              (continue o (λ latest. advertise_latest env ros options packages fuel latest) b).1
      from (returned latest) =
          (advertise_latest-Follows env ros options packages fuel latest b h).tracking
      from (thrown x) = h

  -- Channel ids last for the topics that ROS gives.
  abbrev pub HasRoom : Bridge → Type 0
  HasRoom b =
      OnReturn (λ latest. b.server.next_channel_id + length latest < 2 ^ 32)
        (latest_topics env ros options packages fuel (ros.topic_names_and_types b.ros_calls) [])

  topics-IsCoherent :
      (b : Bridge)
      → HasRoom b
      → IsCoherent b
      → IsCoherent
          (update_advertised_topics env ros options packages fuel
            (ros.topic_names_and_types b.ros_calls)
            b).1
  topics-IsCoherent b room h = record {
    agrees = update_advertised_topics-ServerAgrees env ros options packages fuel _ b room h.agrees;
    tracked = update_advertised_topics-IsTracked _ b h.tracked;
  }

  Keeps-update_services :
      Keeps IsCoherent (Services.update_advertised_services env ros options packages fuel)
  Keeps-update_services =
      Handling.Keeps-update_advertised_services Quiet-IsCoherent env json ros options packages fuel

  update_for-IsCoherent :
      (b : Bridge)
      → HasRoom b
      → IsCoherent b
      → IsCoherent
          (Polling.update_for env ros options packages fuel
            (ros.topic_names_and_types b.ros_calls)
            b).1
  unfolding Polling.update_for
  update_for-IsCoherent b room h = bind-from _ _ b (topics-IsCoherent b room h) λ _.
      Keeps-bind _ _ Keeps-update_services λ _. Keeps-bind _ _ (Keeps-gets _) λ wanted.
        Keeps-if wanted _ _
          (Handling.Keeps-update_connection_graph Quiet-IsCoherent env json ros options
            (ros.topic_names_and_types b.ros_calls))
          (Keeps-pure tt)

  pub poll_start-IsCoherent :
      (b : Bridge)
      → HasRoom b
      → IsCoherent b
      → IsCoherent (Polling.poll_start env ros options packages fuel b).1
  unfolding Polling.poll_start gets ◌>>=◌
  poll_start-IsCoherent b room h =
      bind-from
        (update_advertised_topics env ros options packages fuel
          (ros.topic_names_and_types b.ros_calls))
        (λ _. Services.update_advertised_services env ros options packages fuel) b
        (topics-IsCoherent b room h) λ _. Keeps-update_services

  pub graph_changed-IsCoherent :
      (b : Bridge)
      → HasRoom b
      → IsCoherent b
      → IsCoherent (Polling.graph_changed env ros options packages fuel b).1
  unfolding Polling.graph_changed gets ◌>>=◌ try_catch
  graph_changed-IsCoherent b room h =
      try_catch-from {P = IsCoherent}
        (Polling.update_for env ros options packages fuel (ros.topic_names_and_types b.ros_calls))
        logged b (update_for-IsCoherent b room h)
        λ x. Keeps-option (what_of x) _ _ (Keeps-throw x) λ w. Keeps-pure tt
