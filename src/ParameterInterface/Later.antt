-- ===== src/ParameterInterface/Later.antt =====
-- What may come after a call of subscribe_params, and a node that stays without a subscription to its events.
use co_bridge.Base.{
  String, List, [], ◌∷◌, text_keys, ◌∙◌, inl, inr, Bool, Bool-cases, arith, if◌then◌else◌,
}
use co_bridge.Base.Assoc.{has_key, has_key-emplace}
use co_bridge.Base.Action.{modify}
use co_bridge.Base.Action.Yields.{
  Yields, Yields-bind, Yields-if, Yields-pure, Yields-modify, Yields-gets,
}
use co_bridge.Server.Environment.{Environment}
use co_bridge.ParameterInterface.Conversion.{RosParameter}
use co_bridge.ParameterInterface.State.{Interface, Nodes}
use co_bridge.ParameterInterface.Watching.{
  subscribe_params, parameter_event, set_param_update_callback,
}
use co_bridge.ParameterInterface.Lasting.{
  IsMissed, names-emplace, Yields-call, subscribe_params-Yields,
}

-- What comes later: calls of subscribe_params and set_param_update_callback, and changes of the parameters of a node.
-- The lambda is called only where there is a subscription to the node's events.
pub data Happening : Type 0 where
  subscribing : List String → Happening
  listening : Bool → Happening
  changing : String → List RosParameter → Happening

module _ (env : Environment) (nodes : Nodes) (patterns : List String) where
  abbrev pub happen : Happening → Interface → Interface
  happen (subscribing names) s = (subscribe_params env nodes patterns names s).1
  happen (listening given) s = (set_param_update_callback given s).1
  happen (changing other changed) s =
      if has_key other s.param_subscriptions_by_node
      then (parameter_event nodes other changed s).1
      else s

  abbrev pub happen_all : List Happening → Interface → Interface
  happen_all [] s = s
  happen_all (e ∷ later) s = happen_all later (happen e s)

module _ (env : Environment) (nodes : Nodes) (patterns : List String) (node param : String) where
  parameter_event-Yields :
      (other : String) (changed : List RosParameter)
      → Yields (IsMissed node param) (λ _ _. Unit {0}) (parameter_event nodes other changed)
  unfolding parameter_event
  parameter_event-Yields other changed =
      Yields-bind (λ _. Unit {0}) _ _ _
        (Yields-modify _ λ s h.
          let (v, e, c) = names-emplace other node param s.subscribed_params_by_node h.named in
          record {
            known =
                has_key-emplace node other [] s.subscribed_params_by_node ∙ ground (arith, h.known);
            named = rw e c;
            unwatched = h.unwatched;
          })
        λ _ _.
          Yields-bind (λ _. Unit {0}) _ _ _ (Yields-gets _)
            λ names _.
              Yields-bind (λ _. Unit {0}) _ _ _ (Yields-gets _)
                λ listens _.
                  Yields-if _ _ _ _ (Yields-call nodes node param _)
                    (Yields-pure (λ _. Unit {0}) tt tt)

  happen-IsMissed :
      (e : Happening) (s : Interface)
      → IsMissed node param s
      → IsMissed node param (happen env nodes patterns e s)
  unfolding set_param_update_callback modify
  happen-IsMissed (subscribing names) s h =
      ((subscribe_params-Yields env nodes patterns node param names).at s h).0
  happen-IsMissed (listening given) s h = record {
    known = h.known;
    named = h.named;
    unwatched = h.unwatched;
  }
  happen-IsMissed (changing other changed) s h =
      elim (Bool-cases (has_key other s.param_subscriptions_by_node)) [
        | inl there ↦ rw there ((parameter_event-Yields other changed).at s h).0
        | inr none_there ↦ rw none_there h
      ]

  pub happen_all-IsMissed :
      (later : List Happening) (s : Interface)
      → IsMissed node param s
      → IsMissed node param (happen_all env nodes patterns later s)
  happen_all-IsMissed [] s h = h
  happen_all-IsMissed (e ∷ later) s h = happen_all-IsMissed later _ (happen-IsMissed e s h)
