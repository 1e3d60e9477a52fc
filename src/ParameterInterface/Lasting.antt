-- ===== src/ParameterInterface/Lasting.antt =====
-- A node that subscribe_params has entered without a subscription stays so through later calls.
use co_bridge.Base.{
  String, List, [], ◌∷◌, true, false, Option, none, some, text_keys, ◌==◌, ==_iff, ◌≡◌, refl, ap,
  ◌∙◌, inl, inr, Option-cases, Bool-cases, contains, insert, contains-insert, All, All-map, arith,
  if◌then◌else◌,
}
use co_bridge.Base.Assoc.{
  Assoc, find, has_key, emplace, update, has_key-emplace, has_key-find, find-update,
  find-emplace_old, is_some,
}
use co_bridge.Base.Action.{pure, gets, modify, ◌>>=◌, ◌>>◌}
use co_bridge.Base.Action.Yields.{
  Yields, OnReturn, Yields-bind, Yields-if, Yields-pure, Yields-modify, Yields-for_each,
}
use co_bridge.Server.Environment.{Environment}
use co_bridge.Server.Subscriptions.{is_whitelisted}
use co_bridge.ParameterInterface.Names.{get_node_and_param_name}
use co_bridge.ParameterInterface.State.{
  Interface, Nodes, ParameterCall, create_client, on_parameter_event, call, make_client, client_for,
  outcome_of,
}
use co_bridge.ParameterInterface.Watching.{
  mark, mark_params, watch_node, watch_marked, subscribe_params, names_at,
}
use co_bridge.ParameterInterface.Subscribing.{has_key-mark}

-- A parameter stands among the names that are subscribed to at a node, and there is no subscription to the node's
-- events.
pub record IsMissed (node param : String) (s : Interface) : Type 0 where
  pub known : has_key node s.subscribed_params_by_node ≡ true
  pub named : contains param (names_at (find node s.subscribed_params_by_node)) ≡ true
  pub unwatched : has_key node s.param_subscriptions_by_node ≡ false

-- The second loop is not entered, or not for the node.
abbrev IsLeftOut : String → Option (List String) → Type 0
IsLeftOut node none = Unit
IsLeftOut node (some to_do) = contains node to_do ≡ false

-- A mark puts its own name in place, and keeps the others.
mark-names :
    (n p : String) (m : Assoc String (List String))
    → contains p (names_at (find n (update n (insert p) (emplace n [] m)))) ≡ true
mark-names n p m =
    let here : has_key n (emplace n [] m) ≡ true =
      has_key-emplace n n [] m ∙ ground (arith, (==_iff n n).1 refl) in
    elim (Option-cases (find n (emplace n [] m))) [
      | inl gone ↦ absurd (cc (here, has_key-find n (emplace n [] m), ap is_some gone))
      | inr (v, e) ↦
          rw (find-update n n (insert p) (emplace n [] m), (==_iff n n).1 refl, e)
            (contains-insert p p v ∙ ground (arith, (==_iff p p).1 refl))
    ]

pub names-emplace :
    (n node param : String) (m : Assoc String (List String))
    → contains param (names_at (find node m)) ≡ true
    → (v : List String) × (find node (emplace n [] m) ≡ some v) × (contains param v ≡ true)
names-emplace n node param m h = elim (Option-cases (find node m)) [
  | inl gone ↦ absurd (unfold contains in cc (rw gone at h))
  | inr (v, e) ↦ (v, find-emplace_old node n v [] m e, rw e at h)
]

mark-named :
    (n p node param : String) (m : Assoc String (List String))
    → contains param (names_at (find node m)) ≡ true
    → contains param (names_at (find node (update n (insert p) (emplace n [] m)))) ≡ true
mark-named n p node param m h =
    let (v, e, c) = names-emplace n node param m h in
    rw (find-update node n (insert p) (emplace n [] m), e)
      (elim (Bool-cases (node == n)) [
        | inl same ↦ rw same (contains-insert p param v ∙ ground (arith, c))
        | inr other ↦ rw other c
      ])

mark-IsMissed :
    (node param : String) (parts : String × String) (s : Interface)
    → IsMissed node param s
    → IsMissed node param (mark parts s)
unfolding mark
mark-IsMissed node param parts s h = record {
  known = has_key-mark node parts s ∙ ground (arith, h.known);
  named = mark-named parts.0 parts.1 node param s.subscribed_params_by_node h.named;
  unwatched = h.unwatched;
}

pub mark_new-IsMissed :
    (parts : String × String) (s : Interface)
    → has_key parts.0 s.param_subscriptions_by_node ≡ false
    → IsMissed parts.0 parts.1 (mark parts s)
unfolding mark
mark_new-IsMissed parts s new = record {
  known = has_key-mark parts.0 parts s ∙ ground (arith, (==_iff parts.0 parts.0).1 refl);
  named = mark-names parts.0 parts.1 s.subscribed_params_by_node;
  unwatched = new;
}

known-IsLeftOut :
    (node param other : String) (to_do : List String) (s : Interface)
    → IsMissed node param s
    → contains node to_do ≡ false
    → contains node
        (if has_key other s.subscribed_params_by_node then to_do else insert other to_do)
      ≡ false
known-IsLeftOut node param other to_do s h c =
    elim (Bool-cases (has_key other s.subscribed_params_by_node)) [
      | inl old ↦ rw old c
      | inr new ↦ rw new (
          ground (
            arith,
            contains-insert other node to_do,
            ==_iff node other,
            h.known,
            ap (λ k. has_key k s.subscribed_params_by_node),
          ))
    ]

not_among :
    (node : String) (to_do : List String)
    → contains node to_do ≡ false
    → All (λ other. (node == other) ≡ false) to_do
unfolding contains
not_among node [] c = tt
not_among node (other ∷ to_do) c = (ground arith, not_among node to_do (ground arith))

pub Yields-call :
    (nodes : Nodes) (node param : String) (c : ParameterCall)
    → Yields (IsMissed node param) (λ _ _. Unit {0}) (call nodes c)
unfolding call
Yields-call nodes node param c = record {
  at = λ s h. (
    record { known = h.known; named = h.named; unwatched = h.unwatched },
    unit_of (nodes.failure s.calls c),
  );
}
  where
    unit_of : (o : Option _) → OnReturn (λ _. Unit {0}) (outcome_of o)
    unit_of none = tt
    unit_of (some x) = tt

module _ (env : Environment) (nodes : Nodes) (patterns : List String) (node param : String) where
  pub mark_params-IsMissed :
      (names to_do : List String) (s : Interface)
      → IsMissed node param s
      → IsMissed node param (mark_params env nodes patterns names to_do s).1
  unfolding mark_params pure gets modify ◌>>=◌
  mark_params-IsMissed [] to_do s h = h
  mark_params-IsMissed (name ∷ names) to_do s h =
      let parts = get_node_and_param_name name in
      elim (Bool-cases (is_whitelisted env name patterns)) [
        | inl b ↦ rw b (
            mark_params-IsMissed names
              (if has_key parts.0 s.subscribed_params_by_node then to_do else insert parts.0 to_do)
              (mark parts s) (mark-IsMissed node param parts s h))
        | inr b ↦ rw b h
      ]

  mark_params-IsLeftOut :
      (names to_do : List String) (s : Interface)
      → IsMissed node param s
      → contains node to_do ≡ false
      → OnReturn (IsLeftOut node) (mark_params env nodes patterns names to_do s).0
  unfolding mark_params pure gets modify ◌>>=◌
  mark_params-IsLeftOut [] to_do s h c = c
  mark_params-IsLeftOut (name ∷ names) to_do s h c =
      let parts = get_node_and_param_name name in
      elim (Bool-cases (is_whitelisted env name patterns)) [
        | inl b ↦ rw b (
            mark_params-IsLeftOut names
              (if has_key parts.0 s.subscribed_params_by_node then to_do else insert parts.0 to_do)
              (mark parts s) (mark-IsMissed node param parts s h)
              (known-IsLeftOut node param parts.0 to_do s h c))
        | inr b ↦ rw b tt
      ]

  make_client-Yields :
      (other : String) → Yields (IsMissed node param) (λ _ _. Unit {0}) (make_client nodes other)
  make_client-Yields other =
      Yields-bind (λ _. Unit {0}) _ (call nodes (create_client other)) _
        (Yields-call nodes node param (create_client other))
        λ _ _.
          Yields-modify _
            λ s h. record { known = h.known; named = h.named; unwatched = h.unwatched }

  client_for-Yields :
      (other : String) → Yields (IsMissed node param) (λ _ _. Unit {0}) (client_for nodes other)
  unfolding client_for gets ◌>>=◌
  client_for-Yields other = record {
    at = λ s h.
        (Yields-if _ (has_key other s.param_clients_by_node) _ _ (Yields-pure (λ _. Unit {0}) tt tt)
            (make_client-Yields other)).at
          s h;
  }

  watch_node-Yields :
      (other : String)
      → (node == other) ≡ false
      → Yields (IsMissed node param) (λ _ _. Unit {0}) (watch_node env nodes patterns other)
  unfolding watch_node
  watch_node-Yields other e =
      Yields-bind (λ _. Unit {0}) _
        (client_for nodes other >> call nodes (on_parameter_event other)) _
        (Yields-bind (λ _. Unit {0}) _ (client_for nodes other) _ (client_for-Yields other)
          λ _ _. Yields-call nodes node param (on_parameter_event other))
        λ _ _. Yields-modify _ λ s h. record {
          known = h.known;
          named = h.named;
          unwatched =
              has_key-emplace node other tt s.param_subscriptions_by_node
              ∙ ground (arith, h.unwatched, e);
        }

  watch_marked-Yields :
      (o : Option (List String))
      → IsLeftOut node o
      → Yields (IsMissed node param) (λ _ _. Unit {0}) (watch_marked env nodes patterns o)
  watch_marked-Yields none c = Yields-pure (λ _. Unit {0}) tt tt
  watch_marked-Yields (some to_do) c = Yields-for_each to_do (watch_node env nodes patterns) (
      All-map (λ other. (node == other) ≡ false) _ to_do watch_node-Yields (not_among node to_do c))

  pub subscribe_params-Yields :
      (names : List String)
      → Yields (IsMissed node param) (λ _ _. Unit {0}) (subscribe_params env nodes patterns names)
  unfolding subscribe_params
  subscribe_params-Yields names =
      Yields-bind (IsLeftOut node) _ (mark_params env nodes patterns names []) _
        (record {
          at = λ s h. (
            mark_params-IsMissed names [] s h,
            mark_params-IsLeftOut names [] s h (unfold contains in refl),
          );
        })
        watch_marked-Yields
