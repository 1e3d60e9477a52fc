-- ===== src/Ros2Bridge/Subscriptions.antt =====
-- CoBridge::subscribe and unsubscribe, the server's handlers of subscriptions.
use co_bridge.Base.{ℕ, [], not, ◌&&◌, none, some, nat_keys, is_empty, if◌then◌else◌}
use co_bridge.Base.Assoc.{Assoc, find, has_key, emplace, erase, update}
use co_bridge.Base.Errors.{
  What, Exception, with_id, channel_error, subscribe_unknown_channel, already_subscribed,
  subscribe_failed, unsubscribe_unknown_channel, channel_not_subscribed, client_not_subscribed,
}
use co_bridge.Base.Action.{throw, gets, modify, try_catch, ◌>>=◌, ◌>>◌}
use co_bridge.Server.Types.{ChannelWithoutId}
use co_bridge.Server.Parameters.{what_of}
use co_bridge.Ros2Bridge.Qos.{select_qos}
use co_bridge.Ros2Bridge.State.{
  Bridge, BridgeAction, BridgeOptions, Ros, RosSubscription, create_subscription, call_ros,
}

-- A second copy of an exception's handler: what is no std::exception is not caught.
abbrev pub rethrow_as : {A : Type 0} → (What → Exception) → Exception → BridgeAction A
rethrow_as wrap x = elim (what_of x) [ none ↦ throw x | some w ↦ throw (wrap w) ]

abbrev pub SubscriptionsByClient : Type 0
SubscriptionsByClient = Assoc ℕ RosSubscription

unfoldable pub clients_of : ℕ → Bridge → SubscriptionsByClient
clients_of channel_id b = elim (find channel_id b.subscriptions) [ none ↦ [] | some m ↦ m ]

module _ (ros : Ros) (options : BridgeOptions) where
  -- The creation of the subscription, from the choice of its quality of service on.
  unfoldable pub create_for_client : ℕ → ℕ → ChannelWithoutId → BridgeAction Unit
  unfolding select_qos call_ros
  create_for_client channel_id hdl channel = do
    publishers ← gets (λ b. ros.publishers_info b.ros_calls channel.topic)
    let subscription : RosSubscription = record {
      topic = channel.topic;
      datatype = channel.schema_name;
      qos = select_qos options.min_qos_depth options.max_qos_depth publishers;
    }
    try_catch
        (call_ros ros (create_subscription channel_id hdl subscription)
          >> modify (λ b. record b {
            subscriptions = update channel_id (emplace hdl subscription) b.subscriptions;
          }))
        (rethrow_as (λ w.
          with_id channel_error channel_id (subscribe_failed channel.topic channel.schema_name w)))

  -- From the emplace of an empty map on.
  unfoldable pub subscribe_channel : ℕ → ℕ → ChannelWithoutId → BridgeAction Unit
  unfolding create_for_client clients_of
  subscribe_channel channel_id hdl channel = do
    first_subscription ← gets (λ b. not (has_key channel_id b.subscriptions))
    modify (λ b. record b { subscriptions = emplace channel_id [] b.subscriptions })
    is_subscribed ← gets (λ b. has_key hdl (clients_of channel_id b))
    if not first_subscription && is_subscribed
        then throw (with_id channel_error channel_id (already_subscribed channel_id))
        else create_for_client channel_id hdl channel

  unfoldable pub subscribe : ℕ → ℕ → BridgeAction Unit
  unfolding subscribe_channel
  subscribe channel_id hdl = do
    found ← gets (λ b. find channel_id b.advertised_topics)
    elim found [
      | none ↦ throw (with_id channel_error channel_id (subscribe_unknown_channel channel_id))
      | some channel ↦ subscribe_channel channel_id hdl channel
    ]

-- What is left of the channel's subscriptions is written back, or erased if it is empty.
abbrev pub write_clients : ℕ → SubscriptionsByClient → Bridge → Bridge
write_clients channel_id m b = record b {
  subscriptions =
      if is_empty m
      then erase channel_id b.subscriptions
      else update channel_id (λ old. m) b.subscriptions;
}

unfoldable pub unsubscribe_client : ℕ → ℕ → SubscriptionsByClient → BridgeAction Unit
unsubscribe_client channel_id hdl m =
    if has_key hdl m
    then modify (write_clients channel_id (erase hdl m))
    else throw (with_id channel_error channel_id (client_not_subscribed channel_id))

unfoldable pub unsubscribe : ℕ → ℕ → BridgeAction Unit
unfolding unsubscribe_client
unsubscribe channel_id hdl = do
  advertised ← gets (λ b. has_key channel_id b.advertised_topics)
  if not advertised
      then throw (with_id channel_error channel_id (unsubscribe_unknown_channel channel_id))
      else (do
        found ← gets (λ b. find channel_id b.subscriptions)
        elim found [
          | none ↦ throw (with_id channel_error channel_id (channel_not_subscribed channel_id))
          | some m ↦ unsubscribe_client channel_id hdl m
        ])
