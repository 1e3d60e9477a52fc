-- ===== src/ParameterInterface/Reports.antt =====
-- What is reported at a parameter event.
use co_bridge.Base.{
  String, List, [], ◌∷◌, true, false, text_keys, ◌≡◌, refl, ap, ◌∙◌, inl, inr, Bool-cases, contains,
  All,
}
use co_bridge.Base.Text.{has_code}
use co_bridge.Parameter.{Parameter}
use co_bridge.ParameterInterface.Names.{
  param_sep, get_node_and_param_name, prepend_node_name_to_param_name,
  get_node_and_param_name-prepend,
}
use co_bridge.ParameterInterface.Conversion.{RosParameter, from_ros_param}
use co_bridge.ParameterInterface.Watching.{subscribed_changes}

-- A full name at the node, of one of the names.
abbrev pub IsSubscribedAt : String → List String → Parameter → Type 0
IsSubscribedAt node names p =
    ((get_node_and_param_name p.name).0 ≡ node)
    × (contains (get_node_and_param_name p.name).1 names ≡ true)

module _ (node : String) (names : List String) (plain : has_code param_sep node ≡ false) where
  reported-IsSubscribedAt :
      (param : String) (p : Parameter)
      → p.name ≡ prepend_node_name_to_param_name param node
      → contains param names ≡ true
      → IsSubscribedAt node names p
  reported-IsSubscribedAt param p e c =
      let parts : get_node_and_param_name p.name ≡ (node, param) =
        ap get_node_and_param_name e ∙ get_node_and_param_name-prepend param node plain in
      (ap (λ q. q.0) parts, ap (λ q. contains q.1 names) parts ∙ c)

  -- For a node without a separator in its name, every parameter that an event reports has a full name that is
  -- split into the node and one of the names that are subscribed to at it.
  pub subscribed_changes-IsSubscribedAt :
      (changed : List RosParameter)
      → All (IsSubscribedAt node names) (subscribed_changes node names changed)
  unfolding subscribed_changes from_ros_param
  subscribed_changes-IsSubscribedAt [] = tt
  subscribed_changes-IsSubscribedAt (p ∷ ps) = elim (Bool-cases (contains p.name names)) [
    | inl b ↦ rw b (
      reported-IsSubscribedAt p.name
          (from_ros_param (record p { name = prepend_node_name_to_param_name p.name node })) refl b,
      subscribed_changes-IsSubscribedAt ps,
    )
    | inr b ↦ rw b (subscribed_changes-IsSubscribedAt ps)
  ]
