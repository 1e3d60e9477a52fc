-- ===== src/ParameterInterface/Names.antt =====
-- Full names: a node's name, the separator and the parameter's name at that node.
use Prim.Native.Char.{Char, code}
use Prim.Native.String.{◌++◌}
use text.Mathlib.TextLemmas.{nil-append, cons-append}
use text.Mathlib.TextEquality.{Char-path}
use co_bridge.Base.{
  ℕ, String, true, false, Option, none, some, ◌≡◌, refl, sym, ap, ◌∙◌, Bool-cases, inl, inr, arith,
  nat_eq, nat_eq_iff, if◌then◌else◌,
}
use co_bridge.Base.Text.{has_code}

-- PARAM_SEP
abbrev pub param_sep : ℕ
param_sep = b'.'

abbrev pub longer_name : Char → Option (String × String) → Option (String × String)
longer_name c none = none
longer_name c (some p) = some (String.◌∷◌ c p.0, p.1)

-- What stands before and behind the first separator, and `none` where `find` gives `npos`.
unfoldable pub split_at_sep : String → Option (String × String)
split_at_sep String.[] = none
split_at_sep (String.◌∷◌ c s) =
    if nat_eq (code c) param_sep then some ("", s) else longer_name c (split_at_sep s)

abbrev pub parts_or : String → Option (String × String) → String × String
parts_or name none = (name, name)
parts_or name (some p) = p

-- Without a separator both parts are the whole name, since `npos + 1` is 0.
unfoldable pub get_node_and_param_name : String → String × String
unfolding split_at_sep
get_node_and_param_name name = parts_or name (split_at_sep name)

unfoldable pub prepend_node_name_to_param_name : String → String → String
prepend_node_name_to_param_name param_name node_name = node_name ++ ("." ++ param_name)

split_at_sep-append :
    (node param : String)
    → has_code 46 node ≡ false
    → split_at_sep (node ++ ("." ++ param)) ≡ some (node, param)
unfolding split_at_sep has_code
split_at_sep-append String.[] param h =
    ap split_at_sep (nil-append ("." ++ param) ∙ cons-append _ "" param)
    ∙ ap (λ t. some ("", t)) (nil-append param)
split_at_sep-append (String.◌∷◌ c node) param h =
    let a : nat_eq (code c) 46 ≡ false = ground arith in
    let b : has_code 46 node ≡ false = ground arith in
    rw (cons-append c node ("." ++ param), a)
      (ap (longer_name c) (split_at_sep-append node param b))

-- A full name is split where it was put together, if the node's name has no separator.
pub get_node_and_param_name-prepend :
    (param node : String)
    → has_code param_sep node ≡ false
    → get_node_and_param_name (prepend_node_name_to_param_name param node) ≡ (node, param)
unfolding get_node_and_param_name prepend_node_name_to_param_name
get_node_and_param_name-prepend param node h =
    ap (parts_or (node ++ ("." ++ param))) (split_at_sep-append node param h)

split_at_sep_found :
    (s : String)
    → has_code 46 s ≡ true
    → (p : String × String) × (split_at_sep s ≡ some p) × (p.0 ++ ("." ++ p.1) ≡ s)
unfolding split_at_sep has_code
split_at_sep_found String.[] h = cc
split_at_sep_found (String.◌∷◌ c s) h = elim (Bool-cases (nat_eq (code c) 46)) [
  | inl sep ↦ (
    ("", s),
    rw sep refl,
    nil-append ("." ++ s)
        ∙ cons-append _ "" s
        ∙ (λ i. String.◌∷◌ (Char-path "." c (sym ((nat_eq_iff _ _).0 sep)) i) (nil-append s i)),
  )
  | inr other ↦
      let rest : has_code 46 s ≡ true = ground arith in
      let (p, found, joined) = split_at_sep_found s rest in
      (
        (String.◌∷◌ c p.0, p.1),
        rw other (ap (longer_name c) found),
        cons-append c p.0 ("." ++ p.1) ∙ ap (String.◌∷◌ c) joined,
      )
]

-- A name with a separator is put together again from its parts.
pub prepend-get_node_and_param_name :
    (name : String)
    → has_code param_sep name ≡ true
    → prepend_node_name_to_param_name
        (get_node_and_param_name name).1
        (get_node_and_param_name name).0
      ≡ name
unfolding get_node_and_param_name prepend_node_name_to_param_name
prepend-get_node_and_param_name name h =
    let (p, found, joined) = split_at_sep_found name h in
    ap (λ o. (parts_or name o).0 ++ ("." ++ (parts_or name o).1)) found ∙ joined
