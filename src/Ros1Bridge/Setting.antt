-- ===== src/Ros1Bridge/Setting.antt =====
-- set_parameters and the whitelist.
use co_bridge.Base.{
  ℕ, String, List, [], ◌∷◌, Bool, true, false, not, ◌&&◌, Option, none, some, ◌≡◌, inl, inr,
  Bool-cases, is_empty, All,
}
use co_bridge.Base.Errors.{standard, text}
use co_bridge.Base.Action.{pure, throw}
use co_bridge.Base.Action.Keeps.{
  Keeps, Keeps-bind, Keeps-if, Keeps-option, Keeps-pure, Keeps-throw, Keeps-gets, Keeps-lift,
  Keeps-try_catch,
}
use co_bridge.Parameter.{Parameter, type_of}
use co_bridge.Server.Types.{ServerAction}
use co_bridge.Server.Environment.{Environment}
use co_bridge.Ros1Bridge.State.{
  Nodelet, NodeletOptions, Master, MasterCall, get_param, delete_param, set_param, ask, on_server,
}
use co_bridge.Ros1Bridge.Parameters.{
  report, names_to_get, get_one, is_allowed, get_each, get_parameters, deletes, set_one, set_each,
  set_parameters,
}

module _ (env : Environment) (master : Master) (options : NodeletOptions) where
  -- A parameter is set or deleted only if the whitelist allows its name.
  abbrev pub IsAllowedCall : MasterCall → Type 0
  IsAllowedCall (set_param name value) = is_allowed env master options name ≡ true
  IsAllowedCall (delete_param name) = is_allowed env master options name ≡ true
  IsAllowedCall _ = Unit

  abbrev pub OnlyAllowed : Nodelet → Type 0
  OnlyAllowed s = All IsAllowedCall s.calls

  Keeps-ask : (c : MasterCall) → IsAllowedCall c → Keeps OnlyAllowed (ask master c)
  unfolding ask
  Keeps-ask c h = record { at = λ s p. (h, p) }

  Keeps-on_server : {A : Type 0} (m : ServerAction A) → Keeps OnlyAllowed (on_server m)
  unfolding on_server
  Keeps-on_server m = record { at = λ s p. p }

  Keeps-report : (message : String) (b : Bool) → Keeps OnlyAllowed (report message b)
  Keeps-report message b =
      Keeps-if b (pure tt) (throw (standard (text message))) (Keeps-pure tt) (Keeps-throw _)

  Keeps-get_one : (name : String) → Keeps OnlyAllowed (get_one master name)
  unfolding get_one
  Keeps-get_one name =
      Keeps-try_catch _ _
        (Keeps-bind _ _ (Keeps-gets _) λ value.
          Keeps-bind _ _ (Keeps-ask (get_param name) tt)
            λ _. Keeps-bind _ _ (Keeps-lift _) λ p. Keeps-pure (some p))
        (λ x. Keeps-pure none)

  Keeps-get_each :
      (all_requested : Bool) (names : List String)
      → Keeps OnlyAllowed (get_each env master options all_requested names)
  unfolding get_each
  Keeps-get_each all_requested [] = Keeps-pure _
  Keeps-get_each all_requested (name ∷ names) =
      let rest = Keeps-get_each all_requested names in
      Keeps-if (not (is_allowed env master options name) && all_requested) _ _ rest
        (Keeps-bind _ _ (Keeps-get_one name) λ p. Keeps-bind _ _ rest λ found. Keeps-pure _)

  Keeps-names_to_get :
      (parameters : List String) → Keeps OnlyAllowed (names_to_get master parameters)
  unfolding names_to_get
  Keeps-names_to_get parameters =
      Keeps-if (is_empty parameters) _ _
        (Keeps-bind _ _ (Keeps-gets _)
          λ names. Keeps-option names _ _ (Keeps-throw _) λ all. Keeps-pure all)
        (Keeps-pure parameters)

  Keeps-get_parameters :
      (parameters : List String) (request_id : Option String) (hdl : ℕ)
      → Keeps OnlyAllowed (get_parameters env master options parameters request_id hdl)
  unfolding get_parameters
  Keeps-get_parameters parameters request_id hdl =
      Keeps-bind _ _ (Keeps-names_to_get parameters) λ names.
        Keeps-bind _ _ (Keeps-get_each (is_empty parameters) names)
          λ found. Keeps-bind _ _ (Keeps-on_server _) λ _. Keeps-report _ found.1

  Keeps-set_one :
      (p : Parameter)
      → is_allowed env master options p.name ≡ true
      → Keeps OnlyAllowed (set_one env master options p)
  unfolding set_one
  Keeps-set_one p h =
      Keeps-try_catch _ _
        (Keeps-if (deletes env master options (type_of p.value)) _ _
          (Keeps-bind _ _ (Keeps-ask (delete_param p.name) h) λ _. Keeps-pure true)
          (Keeps-bind _ _ (Keeps-lift _)
            λ value. Keeps-bind _ _ (Keeps-ask (set_param p.name value) h) λ _. Keeps-pure true))
        (λ x. Keeps-pure false)

  Keeps-set_each :
      (parameters : List Parameter) → Keeps OnlyAllowed (set_each env master options parameters)
  unfolding set_each
  Keeps-set_each [] = Keeps-pure true
  Keeps-set_each (p ∷ ps) =
      let rest = Keeps-set_each ps in
      elim (Bool-cases (is_allowed env master options p.name)) [
        | inl h ↦ rw h (
            Keeps-bind _ _ (Keeps-set_one p h)
              λ done. Keeps-bind _ _ rest λ success. Keeps-pure (done && success))
        | inr h ↦ rw h (Keeps-bind _ _ rest λ success. Keeps-pure false)
      ]

  Keeps-set_parameters :
      (parameters : List Parameter) (request_id : Option String) (hdl : ℕ)
      → Keeps OnlyAllowed (set_parameters env master options parameters request_id hdl)
  unfolding set_parameters
  Keeps-set_parameters parameters request_id hdl =
      Keeps-bind _ _ (Keeps-set_each parameters) λ success.
        Keeps-bind _ _
          (Keeps-option request_id _ _ (Keeps-pure tt) λ id. Keeps-get_parameters _ (some id) hdl)
          λ _. Keeps-report _ success

  -- Every parameter that the nodelet sets or deletes is one that the whitelist allows, and whatever set_parameters is
  -- asked for keeps that, also where it throws.
  pub set_parameters-OnlyAllowed :
      (parameters : List Parameter) (request_id : Option String) (hdl : ℕ) (s : Nodelet)
      → OnlyAllowed s
      → OnlyAllowed (set_parameters env master options parameters request_id hdl s).1
  set_parameters-OnlyAllowed parameters request_id hdl s h =
      (Keeps-set_parameters parameters request_id hdl).at s h
