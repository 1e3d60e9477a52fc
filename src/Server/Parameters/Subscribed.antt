-- ===== src/Server/Parameters/Subscribed.antt =====
-- What is subscribed after parameter subscriptions come and go.
use co_bridge.Base.{
  ℕ, String, List, [], ◌∷◌, ◌≡◌, refl, Bool, not, ◌&&◌, ◌||◌, if◌then◌else◌, nat_keys, text_keys,
  contains, insert_all, remove, ==_refl, arith, some, is_empty, copy_if, contains-remove,
  contains-insert_all, Option-cases, inl, inr,
}
use co_bridge.Base.Assoc.{Assoc, find, emplace, find-update, find-emplace, has_key-find}
use co_bridge.Base.Action.{◌>>=◌, gets, modify, pure}
use co_bridge.Base.Action.Keeps.{Keeps-if, Keeps-pure}
use co_bridge.Server.Invariant.Sends.{Keeps-call_handler}
use co_bridge.Server.Types
use co_bridge.Server.Types.{Server, HandlerCall}
use co_bridge.Server.Environment.{Environment, call_handler}
use co_bridge.Server.Parameters.{
  is_parameter_subscribed, params_of, set_params, remove_names, subscribe_parameters,
  unsubscribe_parameters,
}
use co_bridge.Server.Sessions.Closing.{Performs-unsubscribe_params}

find-set_params :
    (hdl : ℕ) (names : List String) (m : Assoc ℕ (List String))
    → find hdl (set_params hdl names m) ≡ some names
unfolding set_params
find-set_params hdl names m =
    rw
      (
        find-update hdl hdl (λ _. names) (emplace hdl [] m),
        find-emplace hdl hdl [] m,
        ==_refl hdl,
        has_key-find hdl m,
      )
      (elim (Option-cases (find hdl m)) [ inl e ↦ rw e refl | inr (v, e) ↦ rw e refl ])

params_of-set_params :
    (hdl : ℕ) (names : List String) (m : Assoc ℕ (List String))
    → params_of hdl (set_params hdl names m) ≡ names
unfolding params_of
params_of-set_params hdl names m = rw (find-set_params hdl names m, params_of) refl

contains-remove_names :
    (n : String) (ns s : List String)
    → contains n (remove_names ns s) ≡ (not (contains n ns) && contains n s)
unfolding remove_names contains
contains-remove_names n [] s = refl
contains-remove_names n (w ∷ ws) s =
    ground (arith, contains-remove_names n ws (remove w s), contains-remove w n s)

module _ (env : Environment) (hdl : ℕ) (names : List String) (s : Server) where
  -- The handler's call leaves the subscriptions alone.
  kept_after :
      (b : Bool) (call : HandlerCall) (more : List String)
      → let m : Assoc ℕ (List String) = set_params hdl more s.client_param_subscriptions in
        ((if b then pure tt else call_handler env call)
          (record s { client_param_subscriptions = m })).1.client_param_subscriptions
        ≡ m
  kept_after b call more =
      let m : Assoc ℕ (List String) = set_params hdl more s.client_param_subscriptions in
      (Keeps-if {P = λ s'. s'.client_param_subscriptions ≡ m} b (pure tt) (call_handler env call)
          (Keeps-pure tt) (Keeps-call_handler (λ s' t p. p) env call)).at
        (record s { client_param_subscriptions = m }) refl

  -- After a subscription to parameters the client is subscribed to a name exactly if it was before
  -- or the name is one of the message's, whatever the handler answers.
  pub subscribe_parameters-params_of :
      (n : String)
      → contains n
          (params_of hdl (subscribe_parameters env hdl names s).1.client_param_subscriptions)
        ≡ (contains n names || contains n (params_of hdl s.client_param_subscriptions))
  unfolding subscribe_parameters ◌>>=◌ gets modify pure
  subscribe_parameters-params_of n =
      let m : Assoc ℕ (List String) = s.client_param_subscriptions in
      let more : List String = insert_all names (params_of hdl m) in
      let unknown_names : List String = copy_if (λ w. not (is_parameter_subscribed w m)) names in
      rw
        (
          kept_after (is_empty unknown_names)
              (Types.on_parameter_subscription unknown_names Types.subscribe hdl) more,
          params_of-set_params hdl more m,
        )
        (contains-insert_all n names (params_of hdl m))

  -- After an unsubscription from parameters the client is subscribed to a name exactly if it was
  -- before and the name is none of the message's, whatever the handler
  -- answers.
  pub unsubscribe_parameters-params_of :
      (n : String)
      → contains n
          (params_of hdl (unsubscribe_parameters env hdl names s).1.client_param_subscriptions)
        ≡ (not (contains n names) && contains n (params_of hdl s.client_param_subscriptions))
  unfolding unsubscribe_parameters ◌>>=◌ modify
  unsubscribe_parameters-params_of n =
      let m : Assoc ℕ (List String) = s.client_param_subscriptions in
      let kept : List String = remove_names names (params_of hdl m) in
      let (t, e) =
        (Performs-unsubscribe_params env hdl names).at
          (record s { client_param_subscriptions = set_params hdl kept m }) in
      rw (e, params_of-set_params hdl kept m) (contains-remove_names n names (params_of hdl m))
