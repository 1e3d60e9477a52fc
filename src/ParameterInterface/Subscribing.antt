-- ===== src/ParameterInterface/Subscribing.antt =====
-- subscribe_params where every name is allowed and rclcpp does not fail.
use co_bridge.Base.{
  String, List, [], ◌∷◌, true, false, ◌||◌, none, some, text_keys, ◌==◌, ==_iff, ◌≡◌, refl, sym, ap,
  subst, ◌∙◌, inl, inr, Bool-cases, is_empty, contains, insert, contains-insert, All, arith,
  if◌then◌else◌,
}
use co_bridge.Base.Assoc.{
  find, has_key, emplace, has_key-update, has_key-emplace, find-update, find-emplace,
}
use co_bridge.Base.Action.{Outcome, returned, pure, gets, modify, ◌>>=◌, for_each}
use co_bridge.Server.Environment.{Environment}
use co_bridge.Server.Subscriptions.{is_whitelisted}
use co_bridge.ParameterInterface.Names.{get_node_and_param_name}
use co_bridge.ParameterInterface.State.{
  Interface, Nodes, ParameterCall, create_client, on_parameter_event, call, client_for,
}
use co_bridge.ParameterInterface.Watching.{mark, mark_params, watch_node, subscribe_params}
use co_bridge.ParameterInterface.Watched.{IsWatched, IsNamed, IsNamed-map}

-- What holds between the two loops: the nodes that are still to be subscribed to are `nodes`.
record IsMarked (nodes : List String) (s : Interface) : Type 0 where
  marked :
      (n : String)
      → has_key n s.subscribed_params_by_node
        ≡ (has_key n s.param_subscriptions_by_node || contains n nodes)
  named : (n : String) → IsNamed (find n s.subscribed_params_by_node)

insert-nonempty : (param : String) (names : List String) → is_empty (insert param names) ≡ false
unfolding insert contains
insert-nonempty param [] = refl
insert-nonempty param (x ∷ xs) = ground arith

pub has_key-mark :
    (n : String) (parts : String × String) (s : Interface)
    → has_key n (mark parts s).subscribed_params_by_node
      ≡ (n == parts.0 || has_key n s.subscribed_params_by_node)
unfolding mark
has_key-mark n (node, param) s =
    has_key-update n node (insert param) (emplace node [] s.subscribed_params_by_node)
    ∙ has_key-emplace n node [] s.subscribed_params_by_node

IsNamed-mark :
    (n : String) (parts : String × String) (s : Interface)
    → IsNamed (find n s.subscribed_params_by_node)
    → IsNamed (find n (mark parts s).subscribed_params_by_node)
unfolding mark
IsNamed-mark n (node, param) s h =
    let m = emplace node [] s.subscribed_params_by_node in
    elim (Bool-cases (n == node)) [
      | inl same ↦
          rw (find-update n node (insert param) m, same)
            (IsNamed-map (insert param) (find n m) (insert-nonempty param))
      | inr other ↦
          rw
            (
              find-update n node (insert param) m,
              other,
              find-emplace n node [] s.subscribed_params_by_node,
              other,
            )
            h
    ]

mark-IsMarked :
    (parts : String × String) (nodes : List String) (s : Interface)
    → IsMarked nodes s
    → IsMarked
        (if has_key parts.0 s.subscribed_params_by_node then nodes else insert parts.0 nodes)
        (mark parts s)
unfolding mark
mark-IsMarked parts nodes s h = record {
  marked = λ n. elim (Bool-cases (has_key parts.0 s.subscribed_params_by_node)) [
    | inl known ↦ rw known (
        ground (
          arith,
          has_key-mark n parts s,
          h.marked n,
          ==_iff n parts.0,
          ap (λ k. has_key k s.subscribed_params_by_node),
        ))
    | inr new ↦
        rw new (ground (arith, has_key-mark n parts s, h.marked n, contains-insert parts.0 n nodes))
  ];
  named = λ n. IsNamed-mark n parts s (h.named n);
}

module _ (env : Environment) (nodes : Nodes) (patterns : List String) where
  mark_params-IsMarked :
      (names : List String) (to_do : List String) (s : Interface)
      → All (λ name. is_whitelisted env name patterns ≡ true) names
      → IsMarked to_do s
      → (done : List String) × ((mark_params env nodes patterns names to_do s).0
          ≡ returned (some done))
        × IsMarked done (mark_params env nodes patterns names to_do s).1
  unfolding mark_params pure gets modify ◌>>=◌
  mark_params-IsMarked [] to_do s a h = (to_do, refl, h)
  mark_params-IsMarked (name ∷ names) to_do s a h =
      let parts = get_node_and_param_name name in
      rw (a.0) (
        mark_params-IsMarked names
          (if has_key parts.0 s.subscribed_params_by_node then to_do else insert parts.0 to_do)
          (mark parts s) a.1 (mark-IsMarked parts to_do s h))

  -- What the second loop does with the nodes.
  record Watches (to_do : List String) (s : Interface) (o : Outcome Unit) (r : Interface)
      : Type 0 where
    returns : o ≡ returned tt
    same : r.subscribed_params_by_node ≡ s.subscribed_params_by_node
    adds :
        (n : String)
        → has_key n r.param_subscriptions_by_node
          ≡ (has_key n s.param_subscriptions_by_node || contains n to_do)

  module _
      (works : (calls : List ParameterCall) (c : ParameterCall)
        → nodes.failure calls c ≡ none) where
    client_for-works :
        (node : String) (s : Interface)
        → Watches [] s (client_for nodes node s).0 (client_for nodes node s).1
    unfolding client_for call contains ◌>>=◌ gets pure modify
    client_for-works node s = elim (Bool-cases (has_key node s.param_clients_by_node)) [
      | inl known ↦ rw known (record { returns = refl; same = refl; adds = λ n. ground arith })
      | inr new ↦ rw new (
          rw (works s.calls (create_client node))
            (record { returns = refl; same = refl; adds = λ n. ground arith }))
    ]

    watch_node-works :
        (node : String) (s : Interface)
        → Watches
            (node ∷ [])
            s
            (watch_node env nodes patterns node s).0
            (watch_node env nodes patterns node s).1
    unfolding watch_node call contains ◌>>=◌ modify
    watch_node-works node s =
        let w = client_for-works node s in
        let r = (client_for nodes node s).1 in
        rw (w.returns) (
          rw (works r.calls (on_parameter_event node)) (record {
            returns = refl;
            same = w.same;
            adds = λ n.
                ground (arith, has_key-emplace n node tt r.param_subscriptions_by_node, w.adds n);
          }))

    watch_all-works :
        (to_do : List String) (s : Interface)
        → Watches to_do s
            (for_each to_do (watch_node env nodes patterns) s).0
            (for_each to_do (watch_node env nodes patterns) s).1
    unfolding for_each pure contains ◌>>=◌
    watch_all-works [] s = record { returns = refl; same = refl; adds = λ n. ground arith }
    watch_all-works (node ∷ to_do) s =
        let w = watch_node-works node s in
        let r = (watch_node env nodes patterns node s).1 in
        let v = watch_all-works to_do r in
        rw (w.returns) (record {
          returns = v.returns;
          same = v.same ∙ w.same;
          adds = λ n. ground (arith, v.adds n, w.adds n);
        })

    -- Where the whitelist allows every name and rclcpp does not fail, subscribe_params returns and keeps it so that
    -- exactly the nodes with names that are subscribed to have a subscription to their events.
    pub subscribe_params-IsWatched :
        (names : List String) (s : Interface)
        → All (λ name. is_whitelisted env name patterns ≡ true) names
        → IsWatched s
        → ((subscribe_params env nodes patterns names s).0 ≡ returned tt)
          × IsWatched (subscribe_params env nodes patterns names s).1
    unfolding subscribe_params ◌>>=◌ contains
    subscribe_params-IsWatched names s a h =
        let start : IsMarked [] s = record {
          marked = λ n. ground (arith, h.watched n);
          named = h.named;
        } in
        let (done, returns, marked) = mark_params-IsMarked names [] s a start in
        let m = (mark_params env nodes patterns names [] s).1 in
        let w = watch_all-works done m in
        rw (returns) (
          w.returns,
          record {
            watched = λ n. ap (has_key n) w.same ∙ marked.marked n ∙ sym (w.adds n);
            named = λ n. subst IsNamed (ap (find n) (sym w.same)) (marked.named n);
          },
        )
