-- ===== src/Ros1Bridge/Subscriptions.antt =====
-- subscribe and unsubscribe of the ROS 1 nodelet, the server's handlers of subscriptions.
use co_bridge.Base.{ℕ, String, [], not, ◌&&◌, none, some, nat_keys, is_empty, if◌then◌else◌}
use co_bridge.Base.Assoc.{Assoc, find, has_key, emplace, erase, update}
use co_bridge.Base.Errors.{
  What, Exception, with_id, channel_error, subscribe_unknown_channel, already_subscribed,
  subscribe_failed, unsubscribe_unknown_channel, channel_not_subscribed, client_not_subscribed,
}
use co_bridge.Base.Action.{throw, gets, modify, try_catch, ◌>>=◌, ◌>>◌}
use co_bridge.Server.Types.{ChannelWithoutId}
use co_bridge.Server.Parameters.{what_of}
use co_bridge.Ros1Bridge.State.{Nodelet, NodeletAction, Master, subscribe_topic, ask}

-- The handler of std::exception: another value is not caught.
abbrev pub rethrow_as : {A : Type 0} → (What → Exception) → Exception → NodeletAction A
rethrow_as wrap x = elim (what_of x) [ none ↦ throw x | some w ↦ throw (wrap w) ]

-- A client and the topic that its subscriber is for.
abbrev pub SubscriptionsByClient : Type 0
SubscriptionsByClient = Assoc ℕ String

unfoldable pub clients_of : ℕ → Nodelet → SubscriptionsByClient
clients_of channel_id s = elim (find channel_id s.subscriptions) [ none ↦ [] | some m ↦ m ]

module _ (master : Master) where
  -- The creation of the subscriber.
  unfoldable pub create_for_client : ℕ → ℕ → ChannelWithoutId → NodeletAction Unit
  unfolding ask
  create_for_client channel_id hdl channel =
      try_catch
        (ask master (subscribe_topic channel_id hdl channel.topic)
          >> modify (λ s. record s {
            subscriptions = update channel_id (emplace hdl channel.topic) s.subscriptions;
          }))
        (rethrow_as (λ w.
          with_id channel_error channel_id (subscribe_failed channel.topic channel.schema_name w)))

  -- From the emplace of an empty map on.
  unfoldable pub subscribe_channel : ℕ → ℕ → ChannelWithoutId → NodeletAction Unit
  unfolding create_for_client clients_of
  subscribe_channel channel_id hdl channel = do
    inserted ← gets (λ s. not (has_key channel_id s.subscriptions))
    modify (λ s. record s { subscriptions = emplace channel_id [] s.subscriptions })
    is_subscribed ← gets (λ s. has_key hdl (clients_of channel_id s))
    if not inserted && is_subscribed
        then throw (with_id channel_error channel_id (already_subscribed channel_id))
        else create_for_client channel_id hdl channel

  unfoldable pub subscribe : ℕ → ℕ → NodeletAction Unit
  unfolding subscribe_channel
  subscribe channel_id hdl = do
    found ← gets (λ (s : Nodelet). find channel_id s.advertised_topics)
    elim found [
      | none ↦ throw (with_id channel_error channel_id (subscribe_unknown_channel channel_id))
      | some channel ↦ subscribe_channel channel_id hdl channel
    ]

-- What is left of the channel's subscriptions is written back, or erased if it is empty.
abbrev pub write_clients : ℕ → SubscriptionsByClient → Nodelet → Nodelet
write_clients channel_id m s = record s {
  subscriptions =
      if is_empty m
      then erase channel_id s.subscriptions
      else update channel_id (λ old. m) s.subscriptions;
}

unfoldable pub unsubscribe_client : ℕ → ℕ → SubscriptionsByClient → NodeletAction Unit
unsubscribe_client channel_id hdl m =
    if has_key hdl m
    then modify (write_clients channel_id (erase hdl m))
    else throw (with_id channel_error channel_id (client_not_subscribed channel_id))

unfoldable pub unsubscribe : ℕ → ℕ → NodeletAction Unit
unfolding unsubscribe_client
unsubscribe channel_id hdl = do
  advertised ← gets (λ (s : Nodelet). has_key channel_id s.advertised_topics)
  if not advertised
      then throw (with_id channel_error channel_id (unsubscribe_unknown_channel channel_id))
      else (do
        found ← gets (λ (s : Nodelet). find channel_id s.subscriptions)
        elim found [
          | none ↦ throw (with_id channel_error channel_id (channel_not_subscribed channel_id))
          | some m ↦ unsubscribe_client channel_id hdl m
        ])
