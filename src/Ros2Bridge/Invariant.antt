-- ===== src/Ros2Bridge/Invariant.antt =====
-- What holds of the bridge's subscriptions and of what it advertises.
use co_bridge.Base.{
  ℕ, [], true, not, ◌&&◌, ◌||◌, ◌==◌, ==_iff, nat_keys, ◌⊎◌, ◌≡◌, sym, ap, ◌∙◌, Bool-cases,
  Option-cases, inl, inr, arith, is_empty,
}
use co_bridge.Base.Assoc.{
  Assoc, find, has_key, emplace, erase, update, has_key-emplace, has_key-erase, has_key-update,
  has_key-find, is_some,
}
use co_bridge.Base.Errors.{What, Exception}
use co_bridge.Server.Parameters.{what_of}
use co_bridge.Base.Action.{throw, modify, ◌>>=◌}
use co_bridge.Base.Action.Keeps.{
  Keeps, Keeps-bind, Keeps-gets, Keeps-modify, Keeps-throw, Keeps-if, Keeps-try_catch, Keeps-option,
}
use co_bridge.Server.Types.{ChannelWithoutId}
use co_bridge.Ros2Bridge.State.{Bridge, BridgeOptions, Ros, RosCall, call_ros}
use co_bridge.Ros2Bridge.Subscriptions.{
  SubscriptionsByClient, rethrow_as, create_for_client, subscribe_channel, subscribe, write_clients,
  unsubscribe,
}

-- Every channel that has subscriptions is advertised.
pub record IsTracked (b : Bridge) : Type 0 where
  pub tracked : (k : ℕ) → has_key k b.subscriptions ≡ true → has_key k b.advertised_topics ≡ true

-- The same, and a given channel is advertised.
record IsTrackedWith (id : ℕ) (b : Bridge) : Type 0 where
  all : IsTracked b
  present : has_key id b.advertised_topics ≡ true

Keeps-call_ros :
    (id : ℕ) (ros : Ros) (call : RosCall) → Keeps (IsTrackedWith id) (call_ros ros call)
unfolding call_ros
Keeps-call_ros id ros call = record {
  at = λ b h. record { all = record { tracked = h.all.tracked }; present = h.present };
}

Keeps-rethrow_as :
    {A : Type 0} (P : Bridge → Type 0) (wrap : What → Exception) (x : Exception)
    → Keeps {A = A} P (rethrow_as wrap x)
Keeps-rethrow_as P wrap x =
    Keeps-option (what_of x) (throw x) (λ w. throw (wrap w)) (Keeps-throw x)
      (λ w. Keeps-throw (wrap w))

-- A write of subscriptions whose channels were there or are the given one.
Keeps-write :
    (id : ℕ) (f : Bridge → Assoc ℕ SubscriptionsByClient)
    → ((b : Bridge) (k : ℕ)
        → has_key k (f b) ≡ true
        → (k ≡ id) ⊎ (has_key k b.subscriptions ≡ true))
    → Keeps (IsTrackedWith id) (modify (λ b. record b { subscriptions = f b }))
Keeps-write id f keys = Keeps-modify _ λ b h. record {
  all = record {
    tracked = λ k e. elim (keys b k e) [
      | inl same ↦ ap (λ j. has_key j b.advertised_topics) same ∙ h.present
      | inr old ↦ h.all.tracked k old
    ];
  };
  present = h.present;
}

Keeps-emplace_clients :
    (id : ℕ)
    → Keeps
        (IsTrackedWith id)
        (modify (λ b. record b { subscriptions = emplace id [] b.subscriptions }))
Keeps-emplace_clients id =
    Keeps-write id (λ b. emplace id [] b.subscriptions)
      λ b k e. elim (Bool-cases (k == id)) [
        | inl same ↦ inl ((==_iff k id).0 same)
        | inr other ↦
            let o : (k == id || has_key k b.subscriptions) ≡ true =
              sym (has_key-emplace k id [] b.subscriptions) ∙ e in
            inr (rw other at o)
      ]

Keeps-update_clients :
    (id : ℕ) (g : SubscriptionsByClient → SubscriptionsByClient)
    → Keeps
        (IsTrackedWith id)
        (modify (λ b. record b { subscriptions = update id g b.subscriptions }))
Keeps-update_clients id g =
    Keeps-write id (λ b. update id g b.subscriptions)
      λ b k e. inr (sym (has_key-update k id g b.subscriptions) ∙ e)

module _ (ros : Ros) (options : BridgeOptions) (id hdl : ℕ) where
  Keeps-create_for_client :
      (channel : ChannelWithoutId)
      → Keeps (IsTrackedWith id) (create_for_client ros options id hdl channel)
  unfolding create_for_client
  Keeps-create_for_client channel = Keeps-bind _ _ (Keeps-gets _) λ publishers.
      Keeps-try_catch _ _
        (Keeps-bind _ _ (Keeps-call_ros id ros _) (λ _. Keeps-update_clients id _))
        (λ x. Keeps-rethrow_as _ _ x)

  Keeps-subscribe_channel :
      (channel : ChannelWithoutId)
      → Keeps (IsTrackedWith id) (subscribe_channel ros options id hdl channel)
  unfolding subscribe_channel
  Keeps-subscribe_channel channel = Keeps-bind _ _ (Keeps-gets _) λ first.
      Keeps-bind _ _ (Keeps-emplace_clients id) λ _.
        Keeps-bind _ _ (Keeps-gets _)
          λ known. Keeps-if _ _ _ (Keeps-throw _) (Keeps-create_for_client channel)

  -- A subscription keeps every channel with subscriptions among the advertised ones, whether it returns or
  -- throws.
  pub subscribe-IsTracked :
      (b : Bridge) → IsTracked b → IsTracked (subscribe ros options id hdl b).1
  unfolding subscribe ◌>>=◌
  subscribe-IsTracked b h = elim (Option-cases (find id b.advertised_topics)) [
    | inl missing ↦ rw missing h
    | inr (channel, found) ↦
        let start : IsTrackedWith id b = record {
          all = h;
          present = has_key-find id b.advertised_topics ∙ ap is_some found;
        } in
        rw found ((Keeps-subscribe_channel channel).at b start).all
  ]

write_clients-IsTracked :
    (id : ℕ) (m : SubscriptionsByClient) (b : Bridge)
    → IsTracked b
    → IsTracked (write_clients id m b)
write_clients-IsTracked id m b h = elim (Bool-cases (is_empty m)) [
  | inl e ↦ record {
    tracked = λ k g. h.tracked k (
        let g' : has_key k (erase id b.subscriptions) ≡ true = rw e at g in
        let r : (not (k == id) && has_key k b.subscriptions) ≡ true =
          sym (has_key-erase k id b.subscriptions) ∙ g' in
        ground arith);
  }
  | inr e ↦ record {
    tracked = λ k g. h.tracked k (
        let g' : has_key k (update id (λ old. m) b.subscriptions) ≡ true = rw e at g in
        sym (has_key-update k id (λ old. m) b.subscriptions) ∙ g');
  }
]

-- An unsubscription keeps every channel with subscriptions among the advertised ones, whether it returns or
-- throws.
pub unsubscribe-IsTracked :
    (id hdl : ℕ) (b : Bridge) → IsTracked b → IsTracked (unsubscribe id hdl b).1
unfolding unsubscribe
unsubscribe-IsTracked id hdl b h =
    (Keeps-bind {P = IsTracked} _ _ (Keeps-gets _) (λ advertised. Keeps-if _ _ _ (Keeps-throw _) (
        Keeps-bind _ _ (Keeps-gets _) (λ found. Keeps-option found _ _ (Keeps-throw _) (λ m.
          Keeps-if (has_key hdl m) _ _ (Keeps-modify _ (λ c. write_clients-IsTracked id _ c))
            (Keeps-throw _)))))).at
      b h
