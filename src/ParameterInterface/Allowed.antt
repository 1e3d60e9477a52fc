-- ===== src/ParameterInterface/Allowed.antt =====
-- The whitelist at get_params and set_params.
use co_bridge.Base.{
  String, List, [], ◌∷◌, ◌++◌, true, not, Option, none, some, text_keys, ◌==◌, ◌≡◌, refl, inl, inr,
  Bool-cases, any, All, All-append, arith,
}
use co_bridge.Base.Errors.{What}
use co_bridge.Base.Action.{Outcome, returned, thrown, pure, throw}
use co_bridge.Base.Action.Yields.{
  Yields, OnReturn, Yields-bind, Yields-pure, Yields-throw, Yields-if,
}
use co_bridge.Base.Attempt.{Attempt, done, raised, undefined_behaviour, and_then}
use co_bridge.Parameter.{Parameter}
use co_bridge.Server.Environment.{Environment}
use co_bridge.Server.Parameters.{what_of}
use co_bridge.Server.Subscriptions.{is_whitelisted}
use co_bridge.ParameterInterface.Names.{prepend_node_name_to_param_name}
use co_bridge.ParameterInterface.Conversion.{RosParameter, to_ros_param, from_ros_param}
use co_bridge.ParameterInterface.State.{Interface, InterfaceAction, Nodes}
use co_bridge.ParameterInterface.Setting.{
  ParametersByNode, add_param, group_params, set_grouped, set_params, logged, launch,
}
use co_bridge.ParameterInterface.Getting.{
  NamesByNode, allowed_params, get_node_parameters, get_at_nodes, collect, nodes_to_ask, get_params,
}

abbrev Any : Interface → Type 0
Any s = Unit {0}

-- What holds of every value that is returned, whatever the state is.
Yields-Any : {A : Type 0} (m : InterfaceAction A) → Yields Any (λ _ _. Unit {0}) m
Yields-Any m = record { at = λ s p. (tt, unit_of (m s).0) }
  where
    unit_of : {A : Type 0} (o : Outcome A) → OnReturn (λ _. Unit {0}) o
    unit_of (returned a) = tt
    unit_of (thrown x) = tt

module _ {A : Type 0} (Q : A → Type 0) where
  Yields-launch :
      (m : InterfaceAction A) → Yields Any (λ _. Q) m → Yields Any (λ _. OnReturn Q) (launch m)
  Yields-launch m y = record { at = λ s p. (tt, (y.at s p).1) }

  Yields-logged :
      (nothing : A) (o : Outcome A)
      → Q nothing
      → OnReturn Q o
      → Yields Any (λ _. Q) (logged nothing o)
  Yields-logged nothing (returned a) h q = Yields-pure Q a q
  Yields-logged nothing (thrown x) h q = rest (what_of x)
    where
      rest :
          (o : Option What)
          → Yields Any (λ _. Q) (elim o [ none ↦ throw x | some w ↦ pure nothing ])
      rest none = Yields-throw _ x
      rest (some w) = Yields-pure Q nothing h

module _ (env : Environment) (nodes : Nodes) (patterns : List String) where
  -- A parameter that the whitelist allows.
  abbrev pub IsAllowed : Parameter → Type 0
  IsAllowed p = is_whitelisted env p.name patterns ≡ true

  allowed_params-IsAllowed :
      (node_name : String) (ps : List RosParameter)
      → All IsAllowed (allowed_params env nodes patterns node_name ps)
  unfolding allowed_params from_ros_param
  allowed_params-IsAllowed node_name [] = tt
  allowed_params-IsAllowed node_name (p ∷ ps) =
      elim (Bool-cases
        (is_whitelisted env (prepend_node_name_to_param_name p.name node_name) patterns)) [
          | inl b ↦ rw b (b, allowed_params-IsAllowed node_name ps)
          | inr b ↦ rw b (allowed_params-IsAllowed node_name ps)
        ]

  get_node_parameters-Yields :
      (node_name : String) (names : List String)
      → Yields Any (λ _. All IsAllowed) (get_node_parameters env nodes patterns node_name names)
  unfolding get_node_parameters
  get_node_parameters-Yields node_name names =
      Yields-bind (λ _. Unit {0}) _ _ _ (Yields-Any _)
        λ is_ready _. Yields-if _ (not is_ready) _ _ (Yields-throw _ _) (
          Yields-bind (λ _. Unit {0}) _ _ _ (Yields-Any _)
            λ requested _.
              Yields-bind (λ _. Unit {0}) _ _ _ (Yields-Any _)
                λ answer _.
                  Yields-bind (λ _. Unit {0}) _ _ _ (Yields-Any _)
                    λ _ _.
                      Yields-bind (λ _. Unit {0}) _ _ _ (Yields-Any _)
                        λ params _.
                          Yields-pure (All IsAllowed) _ (allowed_params-IsAllowed node_name params))

  get_at_nodes-Yields :
      (m : NamesByNode)
      → Yields Any (λ _. All (OnReturn (All IsAllowed))) (get_at_nodes env nodes patterns m)
  unfolding get_at_nodes
  get_at_nodes-Yields [] = Yields-pure _ [] tt
  get_at_nodes-Yields ((node_name, names) ∷ rest) =
      Yields-if _ (node_name == nodes.this_node) _ _ (get_at_nodes-Yields rest) (
        Yields-bind (λ _. Unit {0}) _ _ _ (Yields-Any _)
          λ _ _.
            Yields-bind (OnReturn (All IsAllowed)) _ _ _
              (Yields-launch (All IsAllowed) _ (get_node_parameters-Yields node_name names))
              λ task h.
                Yields-bind (All (OnReturn (All IsAllowed))) _ _ _ (get_at_nodes-Yields rest)
                  λ tasks k. Yields-pure (All (OnReturn (All IsAllowed))) (task ∷ tasks) (h, k))

  collect-Yields :
      (tasks : List (Outcome (List Parameter))) (result : List Parameter)
      → All (OnReturn (All IsAllowed)) tasks
      → All IsAllowed result
      → Yields Any (λ _. All IsAllowed) (collect env nodes patterns tasks result)
  unfolding collect
  collect-Yields [] result h k = Yields-pure (All IsAllowed) result k
  collect-Yields (task ∷ tasks) result h k =
      Yields-bind (All IsAllowed) _ _ _ (Yields-logged (All IsAllowed) [] task tt h.0) λ params q.
        collect-Yields tasks (params ++ result) h.1 (All-append IsAllowed params result q k)

  get_params-Yields :
      (names : List String) → Yields Any (λ _. All IsAllowed) (get_params env nodes patterns names)
  unfolding get_params
  get_params-Yields names =
      Yields-bind (λ _. Unit {0}) _ _ _ (Yields-Any (nodes_to_ask env nodes patterns names))
        λ by_node _.
          Yields-bind (All (OnReturn (All IsAllowed))) _ _ _ (get_at_nodes-Yields by_node)
            λ tasks h. collect-Yields tasks [] h tt

  -- Where get_params returns, every parameter in the result is one that the whitelist allows, whatever names
  -- were asked for and whatever the nodes answer.
  pub get_params-IsAllowed :
      (names : List String) (s : Interface)
      → OnReturn (All IsAllowed) (get_params env nodes patterns names s).0
  get_params-IsAllowed names s = ((get_params-Yields names).at s tt).1

-- The loop ended without anything to set.
abbrev pub IsRefused : Attempt (Option ParametersByNode) → Type 0
IsRefused (done none) = Unit
IsRefused (done (some m)) = ⊥
IsRefused (raised x) = Unit
IsRefused undefined_behaviour = Unit

and_then-IsRefused :
    {A : Type 0} (o : Attempt A) (f : A → Attempt (Option ParametersByNode))
    → ((a : A) → IsRefused (f a))
    → IsRefused (and_then o f)
and_then-IsRefused (done a) f h = h a
and_then-IsRefused (raised x) f h = tt
and_then-IsRefused undefined_behaviour f h = tt

module _ (env : Environment) (nodes : Nodes) (patterns : List String) where
  group_params-IsRefused :
      (ps : List Parameter) (m : ParametersByNode)
      → any (λ p. not (is_whitelisted env p.name patterns)) ps ≡ true
      → IsRefused (group_params env nodes patterns ps m)
  unfolding any group_params
  group_params-IsRefused [] m h = cc
  group_params-IsRefused (p ∷ ps) m h = elim (Bool-cases (is_whitelisted env p.name patterns)) [
    | inl b ↦ rw b (
        and_then-IsRefused (to_ros_param p) _
          λ q. group_params-IsRefused ps (add_param q m) (ground (arith, h, b)))
    | inr b ↦ rw b tt
  ]

  set_grouped-refused :
      (o : Attempt (Option ParametersByNode)) (s : Interface)
      → IsRefused o
      → (set_grouped env nodes patterns o s).1 ≡ s
  unfolding set_grouped pure throw
  set_grouped-refused (done none) s h = refl
  set_grouped-refused (done (some m)) s h = elim h [ ]
  set_grouped-refused (raised x) s h = refl
  set_grouped-refused undefined_behaviour s h = refl

  -- If the whitelist does not allow one of the parameters, set_params changes nothing and asks no node for
  -- anything, also not for those that are allowed.
  pub set_params-refused :
      (ps : List Parameter) (s : Interface)
      → any (λ p. not (is_whitelisted env p.name patterns)) ps ≡ true
      → (set_params env nodes patterns ps s).1 ≡ s
  unfolding set_params
  set_params-refused ps s h =
      set_grouped-refused (group_params env nodes patterns ps []) s (group_params-IsRefused ps [] h)
