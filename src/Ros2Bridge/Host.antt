-- ===== src/Ros2Bridge/Host.antt =====
-- A bridge as far as its channels go: a state that holds a server and the channels that it advertises there.
use co_bridge.Base.{ℕ, ◌+◌, ◌^◌, ◌<◌, ◌≤◌, ◌≡◌, ap, ◌∙◌, List, map, length, nat_keys, arith}
use co_bridge.Base.Assoc.{Assoc}
use co_bridge.Base.Action.{Outcome, Action, returned, thrown, modify, continue, ◌>>=◌}
use co_bridge.Base.Action.Yields.{Yields, bind-ends}
use co_bridge.Server.Types.{Server, ServerAction, ChannelWithoutId}
use co_bridge.Server.Environment.{Environment}
use co_bridge.Server.Channels.{channel_id, add_channels, remove_channels}
use co_bridge.Server.Channels.Registration.{numbered, add_channels-registers}
use co_bridge.Server.Channels.Removal.{remove_channels-Offers}
use co_bridge.Ros2Bridge.Topics.{TopicAndDatatype, remove_stale, store_channels}
use co_bridge.Ros2Bridge.Offered.{Agrees, removal-Agrees, registration-Agrees}

pub record Host (S : Type 0) : Type 1 where
  pub server : S → Server
  pub topics : S → Assoc ℕ ChannelWithoutId
  -- a member function of the server, and a write to the channels
  pub call : (A : Type 0) → ServerAction A → Action S A
  pub write : (Assoc ℕ ChannelWithoutId → Assoc ℕ ChannelWithoutId) → S → S
  -- what they read and what they leave
  pub outcome-call : (A : Type 0) (m : ServerAction A) (s : S) → (call A m s).0 ≡ (m (server s)).0
  pub server-call :
      (A : Type 0) (m : ServerAction A) (s : S) → server (call A m s).1 ≡ (m (server s)).1
  pub topics-call : (A : Type 0) (m : ServerAction A) (s : S) → topics (call A m s).1 ≡ topics s
  pub server-write :
      (f : Assoc ℕ ChannelWithoutId → Assoc ℕ ChannelWithoutId) (s : S)
      → server (write f s) ≡ server s
  pub topics-write :
      (f : Assoc ℕ ChannelWithoutId → Assoc ℕ ChannelWithoutId) (s : S)
      → topics (write f s) ≡ f (topics s)

module _ {S : Type 0} (host : Host S) where
  -- The server offers exactly the channels that the bridge advertises.
  abbrev pub AgreesIn : S → Type 0
  AgreesIn s = Agrees (host.topics s) (host.server s).next_channel_id (host.server s).channels

  -- The same, and the counter of channel ids is at a number.
  pub record AgreesAt (n : ℕ) (s : S) : Type 0 where
    pub agrees : AgreesIn s
    pub at_number : (host.server s).next_channel_id ≡ n

  module _ (env : Environment) where
    -- The registration of new channels, at the server and in the map.
    unfoldable pub register : List ChannelWithoutId → Action S Unit
    register cs = host.call (List ℕ) (add_channels env cs) >>= λ ids.
        modify (host.write (store_channels ids cs))

    register-Agrees :
        (cs : List ChannelWithoutId) (n : ℕ) (s : S)
        → n + length cs < 2 ^ 32
        → AgreesAt n s
        → AgreesIn (register cs s).1
    unfolding register modify ◌>>=◌
    register-Agrees cs n s small h =
        let server = host.server s in
        let room : server.next_channel_id + length cs < 2 ^ 32 =
          omega (arith, small, h.at_number) in
        let (t, e) = add_channels-registers env cs server room h.agrees.below in
        let m : ServerAction (List ℕ) = add_channels env cs in
        let ids = map channel_id (numbered server.next_channel_id cs) in
        let returns = host.outcome-call (List ℕ) m s ∙ ap (λ r. r.0) e in
        let after = host.server-call (List ℕ) m s ∙ ap (λ r. r.1) e in
        let called : S = (host.call (List ℕ) m s).1 in
        rw returns (
          rw
            (
              host.topics-write (store_channels ids cs) called,
              host.server-write (store_channels ids cs) called,
              host.topics-call (List ℕ) m s,
              after,
            )
            (registration-Agrees cs (host.topics s) server.next_channel_id server.channels
              h.agrees))

    -- From the removal of stale channels at the server on, with what makes the new channels.
    unfoldable pub follow : List ℕ → Action S (List ChannelWithoutId) → Action S Unit
    unfolding register
    follow ids make = host.call Unit (remove_channels env ids) >>= λ _. make >>= λ cs. register cs

    -- The channels that are stale among some are not among the bridge's any more, the new ones are at most as many
    -- as ids are left, and the server is left alone while they are made.
    pub follow-AgreesIn :
        (latest : List TopicAndDatatype) (m : Assoc ℕ ChannelWithoutId)
        (make : Action S (List ChannelWithoutId)) (bound : ℕ) (s : S)
        → host.topics s ≡ (remove_stale latest m).kept
        → Agrees m (host.server s).next_channel_id (host.server s).channels
        → (host.server s).next_channel_id + bound < 2 ^ 32
        → Yields (AgreesAt (host.server s).next_channel_id) (λ _ cs. length cs ≤ bound) make
        → AgreesIn (follow (remove_stale latest m).ids make s).1
    unfolding follow ◌>>=◌
    follow-AgreesIn latest m make bound s kept h room y = ends _ _ removed
      where
        n : ℕ
        n = (host.server s).next_channel_id

        gone : ServerAction Unit
        gone = remove_channels env (remove_stale latest m).ids

        removed : AgreesAt n (host.call Unit gone s).1
        removed =
            let o = remove_channels-Offers env (remove_stale latest m).ids (host.server s) in
            record {
              agrees =
                  rw
                    (
                      host.topics-call Unit gone s,
                      host.server-call Unit gone s,
                      kept,
                      o.all,
                      o.counter,
                    )
                    (removal-Agrees latest m n (host.server s).channels h);
              at_number = rw (host.server-call Unit gone s) o.counter;
            }

        ends :
            (o : Outcome Unit) (t : S)
            → AgreesAt n t
            → AgreesIn (continue o (λ _. make >>= λ cs. register cs) t).1
        ends (returned u) t k =
            bind-ends (λ cs. length cs ≤ bound) AgreesIn make register y (λ c j. j.agrees)
              (λ cs few c j. register-Agrees cs n c (omega (arith, few, room)) j) t k
        ends (thrown x) t k = k.agrees
