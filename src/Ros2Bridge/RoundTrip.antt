-- ===== src/Ros2Bridge/RoundTrip.antt =====
-- A subscription and the unsubscription of the same client, which takes it back.
use co_bridge.Base.{
  ℕ, ◌≡◌, refl, sym, ap, ◌∙◌, inl, inr, [], ◌∷◌, Bool, true, false, not, ◌&&◌, none, some, nat_keys,
  ◌==◌, ==_iff, Option-cases,
}
use co_bridge.Base.Assoc.{
  find, has_key, emplace, erase, update, find-emplace, has_key-find, is_some,
}
use co_bridge.Base.Assoc.Nested.{
  inner, find-add_inner, write-add_inner, find-emplace_new, find_absent,
}
use co_bridge.Base.Action.{returned, try_catch, ◌>>=◌, ◌>>◌}
use co_bridge.Server.Types.{ChannelWithoutId}
use co_bridge.Ros2Bridge.Qos.{select_qos}
use co_bridge.Ros2Bridge.State.{
  Bridge, BridgeOptions, Ros, RosSubscription, create_subscription, call_ros,
}
use co_bridge.Ros2Bridge.Subscriptions.{
  clients_of, create_for_client, subscribe_channel, subscribe, write_clients, unsubscribe_client,
  unsubscribe, SubscriptionsByClient,
}

-- The subscription that subscribe makes for a channel.
abbrev pub chosen : Ros → BridgeOptions → ChannelWithoutId → Bridge → RosSubscription
chosen ros options channel b = record {
  topic = channel.topic;
  datatype = channel.schema_name;
  qos =
      select_qos options.min_qos_depth options.max_qos_depth
        (ros.publishers_info b.ros_calls channel.topic);
}

-- The bridge after a subscription was made.
abbrev pub subscribed : ℕ → ℕ → RosSubscription → Bridge → Bridge
subscribed id hdl subscription b = record b {
  subscriptions = update id (emplace hdl subscription) (emplace id [] b.subscriptions);
  ros_calls = create_subscription id hdl subscription ∷ b.ros_calls;
}

and_false : (c : Bool) → (c && false) ≡ false
and_false true = refl
and_false false = refl

-- An empty map that is emplaced first makes no difference to a channel's clients.
clients_after_emplace :
    (id : ℕ) (b : Bridge)
    → clients_of id (record b { subscriptions = emplace id [] b.subscriptions }) ≡ clients_of id b
unfolding clients_of
clients_after_emplace id b = elim (Option-cases (find id b.subscriptions)) [
  | inl missing ↦
      let h : has_key id b.subscriptions ≡ false =
        has_key-find id b.subscriptions ∙ ap is_some missing in
      let r : (id == id) ≡ true = (==_iff id id).1 refl in
      rw (clients_of, find-emplace id id [] b.subscriptions, r, h, missing) refl
  | inr (m, found) ↦
      let h : has_key id b.subscriptions ≡ true =
        has_key-find id b.subscriptions ∙ ap is_some found in
      rw (clients_of, find-emplace id id [] b.subscriptions, h, and_false (id == id), found) refl
]

module _ (ros : Ros) (options : BridgeOptions) (id hdl : ℕ) (channel : ChannelWithoutId)
    (b : Bridge) (advertised : find id b.advertised_topics ≡ some channel)
    (new : has_key hdl (clients_of id b) ≡ false) where
  -- For an advertised channel that the client is not subscribed to, where ROS makes the subscription, subscribe
  -- returns and enters it.
  pub subscribe-enters :
      ros.failure b.ros_calls (create_subscription id hdl (chosen ros options channel b)) ≡ none
      → subscribe ros options id hdl b
        ≡ (returned tt, subscribed id hdl (chosen ros options channel b) b)
  unfolding subscribe_channel create_for_client call_ros ◌>>=◌ try_catch subscribe update
  subscribe-enters works =
      let c = ap (has_key hdl) (clients_after_emplace id b) ∙ new in
      rw (advertised, c, and_false (not (not (has_key id b.subscriptions)))) (rw works refl)

  abbrev entered : RosSubscription → SubscriptionsByClient
  entered s = emplace hdl s (inner id b.subscriptions)

  -- The bridge after the subscription was taken back.
  abbrev pub taken_back : RosSubscription → Bridge
  taken_back s = write_clients id (erase hdl (entered s)) (subscribed id hdl s b)

  clients-inner : (i : ℕ) (c : Bridge) → clients_of i c ≡ inner i c.subscriptions
  unfolding clients_of
  clients-inner i c = elim (Option-cases (find i c.subscriptions)) [
    | inl missing ↦ rw (clients_of, missing) refl
    | inr (m, found) ↦ rw (clients_of, found) refl
  ]

  new_inner : has_key hdl (inner id b.subscriptions) ≡ false
  new_inner = ap (has_key hdl) (sym (clients-inner id b)) ∙ new

  unsubscribe-returns :
      (s : RosSubscription)
      → unsubscribe id hdl (subscribed id hdl s b) ≡ (returned tt, taken_back s)
  unfolding unsubscribe unsubscribe_client ◌>>=◌
  unsubscribe-returns s =
      let a = has_key-find id b.advertised_topics ∙ ap is_some advertised in
      let n = find-add_inner id hdl s b.subscriptions in
      let f =
        has_key-find hdl (entered s)
        ∙ ap is_some (find-emplace_new hdl s (inner id b.subscriptions) new_inner) in
      rw a (rw n (rw f refl))

  clients-taken_back :
      (s : RosSubscription) (i x : ℕ)
      → find x (clients_of i (taken_back s)) ≡ find x (clients_of i b)
  clients-taken_back s i x =
      let missing : find hdl (inner id b.subscriptions) ≡ none =
        find_absent hdl (inner id b.subscriptions) new_inner in
      ap (find x) (clients-inner i (taken_back s))
      ∙ write-add_inner id hdl s b.subscriptions missing i x
      ∙ ap (find x) (sym (clients-inner i b))

  -- Where ROS makes the subscription, for an advertised channel that the client is not subscribed to, subscribe
  -- and then unsubscribe return, and every channel has the same subscription of every client as before.
  pub unsubscribe-subscribe :
      ros.failure b.ros_calls (create_subscription id hdl (chosen ros options channel b)) ≡ none
      → (after : Bridge) × ((subscribe ros options id hdl >> unsubscribe id hdl) b
          ≡ (returned tt, after))
        × ((i x : ℕ) → find x (clients_of i after) ≡ find x (clients_of i b))
  unfolding ◌>>=◌
  unsubscribe-subscribe works = (
    taken_back (chosen ros options channel b),
    rw (subscribe-enters works) (unsubscribe-returns (chosen ros options channel b)),
    clients-taken_back (chosen ros options channel b),
  )
