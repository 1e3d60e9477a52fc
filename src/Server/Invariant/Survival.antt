-- ===== src/Server/Invariant/Survival.antt =====
-- From single writes to the state to whole operations: a predicate that survives each write is
-- stable.
use co_bridge.Base.{
  ℕ, List, [], ◌∷◌, Bool, true, false, if◌then◌else◌, ◌≡◌, refl, Bool-cases, Option-cases, inl, inr,
  nat_keys, text_keys,
}
use co_bridge.Base.Assoc.{Assoc, has_key, update, erase, is_some}
use co_bridge.Base.Int.{increment, decrement, is_nat}
use co_bridge.Base.Action.{
  Action, Outcome, returned, thrown, pure, gets, modify, for_each, continue, ◌>>=◌, ◌>>◌,
}
use co_bridge.Base.Action.Keeps.{Keeps, Keeps-if, Keeps-pure, keeps_rules}
use co_bridge.Server.Types
use co_bridge.Server.Types.{Server, Event, ClientInfo, ClientAdvertisement, HandlerCall}
use co_bridge.Server.Environment.{Environment, call_handler, send_json, send_status}
use co_bridge.Server.Channels
use co_bridge.Server.Channels.{erase_all, drop_subscriptions}
use co_bridge.Server.Graph
use co_bridge.Server.Graph.{write_client, count_by, subscription_count, flag}
use co_bridge.Server.Sessions.Login.{Keeps-login}
use co_bridge.Server.Sessions.Closing.{close_client_keeps, call_handler_cases, Performs-send_json}
use co_bridge.Server.Subscriptions
use co_bridge.Server.Subscriptions.{find_subscription_by_sub_id, publications_of}
use co_bridge.Server.Invariant.Sends.{sends_rules, Keeps-send_status}
use co_bridge.Server.Invariant.Clients.{client_at_cases, client_at_found}
use co_bridge.Server.Invariant.Steps.{Stable}
use co_bridge.Server.Invariant.Writes.{Survives, drop_for, write_clients}

module _ {C : Type 0} (env : Environment) {P : Server → Type 0} (v : Survives C P) where
  -- A handler call, and what follows it if it returns.
  after_call :
      {A : Type 0} (call : HandlerCall) (n : Action Server A) (s : Server)
      → P s
      → ((t : List Event) → P (n (record s { trace = t })).1)
      → P ((call_handler env call >> n) s).1
  unfolding ◌>>=◌
  after_call call n s p k = let (o, t, e) = call_handler_cases env call s in rw e (go o t)
    where
      go : (o : Outcome Unit) (t : List Event) → P (continue o (λ _. n) (record s { trace = t })).1
      go (returned a) t = k t
      go (thrown x) t = v.untraced s t p

  after_write :
      (hdl : ℕ) (f : ClientInfo → ClientInfo) (s : Server)
      → P s
      → P (write_clients (update hdl f) s)
      → P (write_client hdl f s).1
  unfolding write_client ◌>>=◌
  after_write hdl f s p q = elim (client_at_cases hdl s) [
    | inl (c, found, e) ↦ rw e q
    | inr e ↦ rw e p
  ]

  sends :
      (hdl : ℕ) (level : Types.StatusLevel) (text : Types.StatusText) (s : Server)
      → P s
      → P (send_status env hdl level text s).1
  sends hdl level text s p = (Keeps-send_status v.untraced env hdl level text).at s p

  subscribe_one-keeps :
      (snapshot : Assoc ℕ ℕ) (hdl sub_id channel_id : ℕ)
      → Keeps P (Subscriptions.subscribe_one env snapshot hdl sub_id channel_id)
  unfolding Subscriptions.subscribe_one
  subscribe_one-keeps snapshot hdl sub_id channel_id = record {
    at = λ s p.
        unfold ◌>>=◌ in
        elim (Bool-cases (is_some (find_subscription_by_sub_id snapshot sub_id))) [
          | inl used ↦ rw used (sends hdl _ _ s p)
          | inr fresh ↦ rw fresh (elim (Bool-cases (has_key channel_id s.channels)) [
            | inl known ↦ rw known (
                after_call _ _ s p λ t.
                  let p' = v.untraced s t p in
                  after_write hdl _ (record s { trace = t }) p'
                    (v.subscribed hdl channel_id sub_id _ known p'))
            | inr missing ↦ rw missing (sends hdl _ _ s p)
          ])
        ];
  }

  unsubscribe_one-keeps :
      (snapshot : Assoc ℕ ℕ) (hdl sub_id : ℕ)
      → Keeps P (Subscriptions.unsubscribe_one env snapshot hdl sub_id)
  unfolding Subscriptions.unsubscribe_one
  unsubscribe_one-keeps snapshot hdl sub_id = record {
    at = λ s p. elim (Option-cases (find_subscription_by_sub_id snapshot sub_id)) [
      | inl unknown ↦ rw (unknown, Subscriptions.unsubscribe_one) (sends hdl _ _ s p)
      | inr (channel_id, e) ↦
          rw (e, Subscriptions.unsubscribe_one)
            (after_call _ _ s p λ t.
              let p' = v.untraced s t p in
              after_write hdl _ (record s { trace = t }) p' (v.unsubscribed hdl channel_id _ p'))
    ];
  }

  advertise_channel-keeps :
      (hdl : ℕ) (a : ClientAdvertisement) → Keeps P (Subscriptions.advertise_channel env hdl a)
  unfolding Subscriptions.advertise_channel Subscriptions.write_publications
  advertise_channel-keeps hdl a = record {
    at = λ s p. after_call _ _ s p λ t.
        unfold ◌>>=◌ write_client in
        let s' : Server = record s { trace = t } in
        elim (client_at_cases hdl s') [
          | inl (c, found, e) ↦ rw e (v.advertised hdl a s' (v.untraced s t p))
          | inr e ↦ rw e (v.untraced s t p)
        ];
  }

  unadvertise_one-keeps : (hdl id : ℕ) → Keeps P (Subscriptions.unadvertise_one env hdl id)
  unfolding Subscriptions.unadvertise_one Subscriptions.write_publications write_client
  unadvertise_one-keeps hdl id = record {
    at = λ s p.
        unfold ◌>>=◌ in
        elim (Bool-cases (has_key id (publications_of hdl s))) [
          | inr none_there ↦ rw none_there p
          | inl there ↦ rw there (
              after_call _ _ s p λ t.
                let s' : Server = record s { trace = t } in
                elim (client_at_cases hdl s') [
                  | inl (c, found, e) ↦
                      rw
                        (
                          e,
                          client_at_found hdl
                              (record s' {
                                client_channels = update hdl (erase id) s.client_channels;
                              })
                              found,
                        )
                        (v.unadvertised hdl id s' (v.untraced s t p))
                  | inr e ↦ rw e (v.untraced s t p)
                ])
        ];
  }

  unsubscribe_graph-keeps : (hdl : ℕ) → Keeps P (Graph.handle_unsubscribe_connection_graph env hdl)
  unfolding Graph.handle_unsubscribe_connection_graph ◌>>=◌
  unsubscribe_graph-keeps hdl = record {
    at = λ s p. elim (client_at_cases hdl s) [
      | inr e ↦ rw e p
      | inl (c, found, e) ↦ rw e (elim (Bool-cases c.subscribed_to_connection_graph) [
        | inr not_marked ↦ rw not_marked (sends hdl _ _ s p)
        | inl is_marked ↦ rw is_marked (
            (Keeps-if {P = P} (is_nat 0 (decrement (subscription_count s)))
                (call_handler env (Types.on_subscribe_connection_graph false)) (pure tt)
                (search (sends_rules, v.untraced)) (Keeps-pure tt)).at
              _ (v.unmarked hdl c s found is_marked p))
      ])
    ];
  }

  after_step :
      {A B : Type 0} (m : Action Server A) (f : A → Action Server B) (s : Server)
      → P (m s).1
      → ((a : A) → Keeps P (f a))
      → P ((m >>= f) s).1
  unfolding ◌>>=◌
  after_step {A} m f s p k = go (m s).0 (m s).1 p
    where
      go : (o : Outcome A) (s' : Server) → P s' → P (continue o f s').1
      go (returned a) s' q = (k a).at s' q
      go (thrown x) s' q = q

  -- The first subscriber is told to the handler and marked.
  mark_first : ℕ → Bool → Action Server Unit
  mark_first hdl first =
      if first
      then (do
        call_handler env (Types.on_subscribe_connection_graph true)
        write_client hdl (flag true))
      else pure tt

  mark_first-keeps :
      (hdl : ℕ) (s : Server)
      → P s
      → P (mark_first hdl (is_nat 1 (increment (subscription_count s))) (count_by increment s)).1
  unfolding mark_first
  mark_first-keeps hdl s p = elim (Bool-cases (is_nat 1 (increment (subscription_count s)))) [
    | inr later ↦ rw later (unfold pure in v.counted s p)
    | inl first ↦ rw first (
        after_call _ _ (count_by increment s) (v.counted s p) λ t.
          after_write hdl (flag true) (record (count_by increment s) { trace = t })
            (v.untraced _ t (v.counted s p)) (v.untraced _ t (v.marked hdl s first p)))
  ]

  send_graph : ℕ → Action Server Unit
  send_graph hdl = do
    graph ← gets (λ s. s.connection_graph)
    send_json env hdl (Types.graph_update (Graph.full_update graph))

  send_graph-keeps : (hdl : ℕ) → Keeps P (send_graph hdl)
  unfolding send_graph
  send_graph-keeps hdl = search (keeps_rules, sends_rules, v.untraced)

  subscribe_graph-keeps : (hdl : ℕ) → Keeps P (Graph.handle_subscribe_connection_graph env hdl)
  unfolding Graph.handle_subscribe_connection_graph mark_first send_graph ◌>>=◌
  subscribe_graph-keeps hdl = record {
    at = λ s p.
        after_step (mark_first hdl (is_nat 1 (increment (subscription_count s))))
          (λ _. send_graph hdl) (count_by increment s) (mark_first-keeps hdl s p)
          (λ _. send_graph-keeps hdl);
  }

  -- One client's round in `remove_channels`.
  abbrev drop_round : List ℕ → ℕ × ClientInfo → Action Server Unit
  drop_round ids c = do
    modify (λ s. record s { clients = update c.0 (drop_subscriptions ids) s.clients })
    send_json env c.0 (Types.unadvertise ids)

  drop_rounds :
      (ids : List ℕ) (l : Assoc ℕ ClientInfo) (s : Server)
      → (t : List Event) × (for_each l (drop_round ids) s
          ≡ (returned tt, record s { clients = drop_for ids l s.clients; trace = t }))
  unfolding for_each drop_for ◌>>=◌
  drop_rounds ids [] s = (s.trace, refl)
  drop_rounds ids (c ∷ l) s =
      let s' : Server = record s { clients = update c.0 (drop_subscriptions ids) s.clients } in
      let (t, e) = (Performs-send_json env c.0 (Types.unadvertise ids)).at s' in
      let (t', e') = drop_rounds ids l (record s' { trace = t }) in (t', rw e e')

  remove_channels-keeps : C → (ids : List ℕ) → Keeps P (Channels.remove_channels env ids)
  unfolding Channels.remove_channels ◌>>=◌
  remove_channels-keeps may [] = record { at = λ s p. p }
  remove_channels-keeps may (k ∷ ks) = record {
    at = λ s p.
        let s' : Server = record s { channels = erase_all (k ∷ ks) s.channels } in
        let (t, e) = drop_rounds (k ∷ ks) s.clients s' in
        rw e (v.untraced _ t (v.remove_channels may (k ∷ ks) s p));
  }

  -- A predicate that survives every write is stable.
  pub Survives-Stable : Stable C env P
  Survives-Stable = record {
    untraced = v.untraced;
    register_channel = λ may c. record { at = v.register_channel may c };
    register_service = λ d. record { at = v.register_service d };
    erase_service = v.erase_service;
    remove_channels = remove_channels-keeps;
    params = v.params;
    options = v.options;
    graph = v.graph;
    subscribe_graph = subscribe_graph-keeps;
    unsubscribe_graph = unsubscribe_graph-keeps;
    login = λ user_name user_id hdl.
        Keeps-login env user_id user_name v.untraced v.kicked (v.entered user_name user_id) hdl;
    close_client = λ hdl c s found p.
        close_client_keeps env P hdl c s (λ t. v.untraced _ t (v.left hdl c s found p));
    subscribe_one = subscribe_one-keeps;
    unsubscribe_one = unsubscribe_one-keeps;
    new_publications = v.new_publications;
    advertise_channel = advertise_channel-keeps;
    unadvertise_one = unadvertise_one-keeps;
  }
