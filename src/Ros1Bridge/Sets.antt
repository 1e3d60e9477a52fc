-- ===== src/Ros1Bridge/Sets.antt =====
-- What set_parameters asks the master of ROS 1 for.
use co_bridge.Base.{
  ℕ, String, List, [], ◌∷◌, Bool, true, false, ◌&&◌, none, ◌≡◌, refl, inl, inr, Bool-cases,
  if◌then◌else◌,
}
use co_bridge.Base.Action.{Outcome, returned, thrown, pure, lift, try_catch, continue, ◌>>=◌}
use co_bridge.Parameter.{Parameter, type_of}
use co_bridge.Server.Environment.{Environment}
use co_bridge.Ros1Bridge.Conversion.{XmlRpcValue, value_to_ros}
use co_bridge.Ros1Bridge.State.{
  Nodelet, NodeletAction, NodeletOptions, Master, MasterCall, delete_param, set_param, outcome_of,
  ask,
}
use co_bridge.Ros1Bridge.Parameters.{is_allowed, deletes, set_one, set_each, set_parameters}
use co_bridge.Ros1Bridge.Allowlist.{report_state}

-- The call for a value that ROS 1 can hold.
abbrev set_call : String → Outcome XmlRpcValue → List MasterCall → List MasterCall
set_call name (returned value) calls = set_param name value ∷ calls
set_call name (thrown x) calls = calls

-- A body that leaves a state, and its handler, which leaves it too.
caught :
    (m : NodeletAction Bool) (o : Outcome Bool) (s t : Nodelet)
    → m s ≡ (o, t)
    → (done : Bool) × (try_catch m (λ x. pure false) s ≡ (returned done, t))
unfolding try_catch pure
caught m (returned done) s t e = (done, rw e refl)
caught m (thrown x) s t e = (false, rw e refl)

after_call :
    (o : Outcome Unit) (s : Nodelet)
    → (r : Outcome Bool) × (continue {B = Bool} o (λ _. pure true) s ≡ (r, s))
unfolding pure
after_call (returned u) s = (returned true, refl)
after_call (thrown x) s = (thrown x, refl)

ask_then :
    (master : Master) (call : MasterCall) (s : Nodelet)
    → (r : Outcome Bool) × ((ask master call >>= λ _. pure true) s
        ≡ (r, record s { calls = call ∷ s.calls }))
unfolding ask ◌>>=◌
ask_then master call s = after_call (outcome_of (master.failure s.calls call)) _

set_then :
    (master : Master) (name : String) (o : Outcome XmlRpcValue) (s : Nodelet)
    → (r : Outcome Bool) × ((lift o >>= λ value.
            ask master (set_param name value) >>= λ _. pure true)
          s
        ≡ (r, record s { calls = set_call name o s.calls }))
unfolding lift ◌>>=◌
set_then master name (returned value) s = ask_then master (set_param name value) s
set_then master name (thrown x) s = (thrown x, refl)

module _ (env : Environment) (master : Master) (options : NodeletOptions) where
  -- The calls for one parameter, the last one first: to delete it if it is not set, or to set it.
  abbrev call_one : Parameter → List MasterCall → List MasterCall
  call_one p calls =
      if deletes env master options (type_of p.value)
      then delete_param p.name ∷ calls
      else set_call p.name (value_to_ros p.value) calls

  -- The calls for those parameters that the whitelist allows, in their order.
  abbrev pub calls_for : List Parameter → List MasterCall → List MasterCall
  calls_for [] calls = calls
  calls_for (p ∷ ps) calls =
      calls_for ps (if is_allowed env master options p.name then call_one p calls else calls)

  set_one-calls :
      (p : Parameter) (s : Nodelet)
      → (done : Bool) × (set_one env master options p s
          ≡ (returned done, record s { calls = call_one p s.calls }))
  unfolding set_one
  set_one-calls p s = elim (Bool-cases (deletes env master options (type_of p.value))) [
    | inl d ↦ let (r, e) = ask_then master (delete_param p.name) s in rw d (caught _ r s _ e)
    | inr d ↦
        let (r, e) = set_then master p.name (value_to_ros p.value) s in rw d (caught _ r s _ e)
  ]

  set_each-calls :
      (ps : List Parameter) (s : Nodelet)
      → (success : Bool) × (set_each env master options ps s
          ≡ (returned success, record s { calls = calls_for ps s.calls }))
  unfolding set_each ◌>>=◌ pure
  set_each-calls [] s = (true, refl)
  set_each-calls (p ∷ ps) s = elim (Bool-cases (is_allowed env master options p.name)) [
    | inl b ↦
        let (done, one) = set_one-calls p s in
        let (success, rest) = set_each-calls ps (record s { calls = call_one p s.calls }) in
        rw b (done && success, rw one (rw rest refl))
    | inr b ↦ let (success, rest) = set_each-calls ps s in rw b (false, rw rest refl)
  ]

  -- Without a request id, set_parameters asks the master for exactly the parameters that the whitelist allows and
  -- ROS 1 can hold, in their order, each to be set or, if it is not set, deleted; whatever fails on the way, the
  -- later ones are asked for too. Nothing else of the nodelet changes.
  pub set_parameters-calls_for :
      (ps : List Parameter) (hdl : ℕ) (s : Nodelet)
      → (set_parameters env master options ps none hdl s).1
        ≡ record s { calls = calls_for ps s.calls }
  unfolding set_parameters ◌>>=◌ pure
  set_parameters-calls_for ps hdl s =
      let (success, e) = set_each-calls ps s in
      rw e (report_state "Failed to set one or multiple parameters" success _)
