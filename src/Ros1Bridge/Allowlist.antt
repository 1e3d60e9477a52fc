-- ===== src/Ros1Bridge/Allowlist.antt =====
-- What the parameter whitelist keeps from clients, and what it does not.
use co_bridge.Base.{
  ℕ, String, List, [], ◌∷◌, Bool, true, false, Option, none, some, ◌≡◌, refl, ap, inl, inr,
  Bool-cases,
}
use co_bridge.Base.Action.{
  Outcome, returned, thrown, pure, throw, try_catch, handle_exception, continue, ◌>>=◌,
}
use co_bridge.Parameter.{Parameter}
use co_bridge.Server.Environment.{Environment}
use co_bridge.Server.Parameters.{publish_parameter_values}
use co_bridge.Ros1Bridge.State.{Nodelet, NodeletOptions, Master, on_server}
use co_bridge.Ros1Bridge.Parameters.{
  add_found, report, names_to_get, get_one, is_allowed, get_each, get_parameters,
}

-- What the handlers around a parameter let through.
caught-returns :
    (o : Outcome (Option Parameter)) (s : Nodelet)
    → (p : Option Parameter) × ((handle_exception {S = Nodelet} o (λ x. pure none) s).0
        ≡ returned p)
unfolding pure
caught-returns (returned p) s = (p, refl)
caught-returns (thrown x) s = (none, refl)

get_one-returns :
    (master : Master) (name : String) (s : Nodelet)
    → (p : Option Parameter) × ((get_one master name s).0 ≡ returned p)
unfolding get_one try_catch
get_one-returns master name s = caught-returns _ _

abbrev with_value : Outcome (Option Parameter) → List Parameter → List Parameter
with_value (returned (some p)) ps = p ∷ ps
with_value (returned none) ps = ps
with_value (thrown x) ps = ps

-- The parameters under some names, in the order of the names, and the state after they were got: nothing of this
-- depends on a whitelist.
abbrev pub got : Master → List String → Nodelet → List Parameter × Nodelet
unfolding get_one
got master [] s = ([], s)
got master (name ∷ names) s =
    let rest = got master names (get_one master name s).1 in
    (with_value (get_one master name s).0 rest.0, rest.1)

pub report_state : (message : String) (b : Bool) (s : Nodelet) → (report message b s).1 ≡ s
unfolding pure throw
report_state message true s = refl
report_state message false s = refl

continue-report_state :
    (o : Outcome Unit) (message : String) (b : Bool) (s : Nodelet)
    → (continue o (λ _. report message b) s).1 ≡ s
continue-report_state (returned u) message b s = report_state message b s
continue-report_state (thrown x) message b s = refl

add_found-params :
    (p : Option Parameter) (allowed : Bool) (ps : List Parameter) (success : Bool)
    → (add_found p allowed (ps, success)).0 ≡ with_value (returned p) ps
add_found-params none allowed ps success = refl
add_found-params (some p) allowed ps success = refl

module _ (env : Environment) (master : Master) (options : NodeletOptions) where
  found_next :
      (allowed : Bool) (names : List String) (o : Outcome (Option Parameter)) (s t : Nodelet)
      (p : Option Parameter) (ps : List Parameter) (success : Bool)
      → o ≡ returned p
      → get_each env master options false names s ≡ (returned (ps, success), t)
      → continue o
          (λ q.
            get_each env master options false names >>= λ found. pure (add_found q allowed found))
          s
        ≡ (returned (with_value o ps, (add_found p allowed (ps, success)).1), t)
  unfolding ◌>>=◌ pure
  found_next allowed names o s t p ps success e rest = rw e (
      rw rest (
        ap (λ v. (returned (v, (add_found p allowed (ps, success)).1), t))
          (add_found-params p allowed ps success)))

  get_each-got :
      (names : List String) (s : Nodelet)
      → (success : Bool) × (get_each env master options false names s
          ≡ (returned ((got master names s).0, success), (got master names s).1))
  unfolding get_each pure got ◌>>=◌
  get_each-got [] s = (true, refl)
  get_each-got (name ∷ names) s =
      let (p, one) = get_one-returns master name s in
      let (success, rest) = get_each-got names (get_one master name s).1 in
      let step =
        found_next (is_allowed env master options name) names (get_one master name s).0
          (get_one master name s).1 _ p _ success one rest in
      (
        (add_found p (is_allowed env master options name)
            ((got master names (get_one master name s).1).0, success)).1,
        elim (Bool-cases (is_allowed env master options name)) [
          | inl b ↦ rw b (rw b at step)
          | inr b ↦ rw b (rw b at step)
        ],
      )

  -- Where a client asks for parameters by name, the whitelist keeps none of them from it: the nodelet ends in the
  -- state in which all of those that could be got were sent to the client, those that are not allowed too.
  pub get_parameters-got :
      (name : String) (names : List String) (request_id : Option String) (hdl : ℕ) (s : Nodelet)
      → let all = got master (name ∷ names) s in
        (get_parameters env master options (name ∷ names) request_id hdl s).1
        ≡ (on_server (publish_parameter_values env hdl all.0 request_id) all.1).1
  unfolding get_parameters names_to_get pure ◌>>=◌
  get_parameters-got name names request_id hdl s =
      let all = got master (name ∷ names) s in
      let (success, each) = get_each-got (name ∷ names) s in
      rw each (
        continue-report_state
          (on_server (publish_parameter_values env hdl all.0 request_id) all.1).0
          "Failed to retrieve one or multiple parameters" success
          (on_server (publish_parameter_values env hdl all.0 request_id) all.1).1)
