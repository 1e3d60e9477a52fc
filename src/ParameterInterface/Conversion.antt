-- ===== src/ParameterInterface/Conversion.antt =====
-- to_ros_param and from_ros_param. The rest of a ROS parameter is a parameter of rclcpp: a name, and a
-- value with its type.
use co_bridge.Base.{ℕ, String, List, [], ◌∷◌, Bool, ◌≡◌, refl, ap}
use co_bridge.Base.Int.{ℤ}
use co_bridge.Base.Errors.{standard, text, bad_any_cast}
use co_bridge.Base.Action.{Outcome, returned, thrown}
use co_bridge.Base.Attempt.{Attempt, done, raised, undefined_behaviour, attempt_of, map_attempt}
use co_bridge.Parameter.{
  Parameter, ParameterValue, not_set, of_bool, of_integer, of_double, of_string, of_bytes, of_array,
  of_struct, ValueList, nil, cons,
}

-- rclcpp::ParameterValue; a `double` is its 64-bit pattern.
pub data RosValue : Type 0 where
  ros_not_set : RosValue
  ros_bool : Bool → RosValue
  ros_integer : ℤ → RosValue
  ros_double : ℕ → RosValue
  ros_string : String → RosValue
  ros_byte_array : List ℕ → RosValue
  ros_bool_array : List Bool → RosValue
  ros_integer_array : List ℤ → RosValue
  ros_double_array : List ℕ → RosValue
  ros_string_array : List String → RosValue

pub record RosParameter : Type 0 where
  pub name : String
  pub value : RosValue

-- `getValue<T>` for the types of elements: a value of another type throws.
abbrev pub get_bool : ParameterValue → Outcome Bool
get_bool (of_bool b) = returned b
get_bool _ = thrown (standard bad_any_cast)

abbrev pub get_integer : ParameterValue → Outcome ℤ
get_integer (of_integer n) = returned n
get_integer _ = thrown (standard bad_any_cast)

abbrev pub get_double : ParameterValue → Outcome ℕ
get_double (of_double d) = returned d
get_double _ = thrown (standard bad_any_cast)

abbrev pub get_text : ParameterValue → Outcome String
get_text (of_string s) = returned s
get_text _ = thrown (standard bad_any_cast)

abbrev pub map_outcome : {A B : Type 0} → (A → B) → Outcome A → Outcome B
map_outcome f (returned a) = returned (f a)
map_outcome f (thrown x) = thrown x

abbrev pub prepend_outcome : {A : Type 0} → Outcome A → Outcome (List A) → Outcome (List A)
prepend_outcome (returned a) rest = map_outcome (◌∷◌ a) rest
prepend_outcome (thrown x) rest = thrown x

-- The loop that fills `vec`.
unfoldable pub elements_of :
    {A : Type 0} → (ParameterValue → Outcome A) → ValueList → Outcome (List A)
elements_of get nil = returned []
elements_of get (cons v vs) = prepend_outcome (get v) (elements_of get vs)

-- An array, by the type of its first element: `front` of an empty vector is not defined.
unfoldable pub array_to_ros : ValueList → Attempt RosValue
unfolding elements_of
array_to_ros nil = undefined_behaviour
array_to_ros (cons (of_bool b) vs) =
    map_attempt ros_bool_array (attempt_of (elements_of get_bool (cons (of_bool b) vs)))
array_to_ros (cons (of_integer n) vs) =
    map_attempt ros_integer_array (attempt_of (elements_of get_integer (cons (of_integer n) vs)))
array_to_ros (cons (of_double d) vs) =
    map_attempt ros_double_array (attempt_of (elements_of get_double (cons (of_double d) vs)))
array_to_ros (cons (of_string s) vs) =
    map_attempt ros_string_array (attempt_of (elements_of get_text (cons (of_string s) vs)))
array_to_ros (cons _ vs) = raised (standard (text "Unsupported parameter type"))

unfoldable pub value_to_ros : ParameterValue → Attempt RosValue
unfolding array_to_ros
value_to_ros not_set = done ros_not_set
value_to_ros (of_bool b) = done (ros_bool b)
value_to_ros (of_integer n) = done (ros_integer n)
value_to_ros (of_double d) = done (ros_double d)
value_to_ros (of_string s) = done (ros_string s)
value_to_ros (of_bytes bs) = done (ros_byte_array bs)
value_to_ros (of_array vs) = array_to_ros vs
value_to_ros (of_struct fs) = raised (standard (text "Unsupported parameter type"))

unfoldable pub to_ros_param : Parameter → Attempt RosParameter
unfolding value_to_ros
to_ros_param p = map_attempt (λ v. record { name = p.name; value = v }) (value_to_ros p.value)

-- `param_array.emplace_back(value)` for each value
unfoldable pub array_of : {A : Type 0} → (A → ParameterValue) → List A → ValueList
array_of f [] = nil
array_of f (a ∷ as') = cons (f a) (array_of f as')

unfoldable pub value_from_ros : RosValue → ParameterValue
unfolding array_of
value_from_ros ros_not_set = not_set
value_from_ros (ros_bool b) = of_bool b
value_from_ros (ros_integer n) = of_integer n
value_from_ros (ros_double d) = of_double d
value_from_ros (ros_string s) = of_string s
value_from_ros (ros_byte_array bs) = of_bytes bs
value_from_ros (ros_bool_array bs) = of_array (array_of of_bool bs)
value_from_ros (ros_integer_array ns) = of_array (array_of of_integer ns)
value_from_ros (ros_double_array ds) = of_array (array_of of_double ds)
value_from_ros (ros_string_array ss) = of_array (array_of of_string ss)

-- A ROS parameter has one of the types of `RosValue`, so the last branch, which throws, is not taken.
unfoldable pub from_ros_param : RosParameter → Parameter
unfolding value_from_ros
from_ros_param p = record { name = p.name; value = value_from_ros p.value }

elements_of-array_of :
    {A : Type 0} (f : A → ParameterValue) (get : ParameterValue → Outcome A)
    → ((a : A) → get (f a) ≡ returned a)
    → (xs : List A) → elements_of get (array_of f xs) ≡ returned xs
unfolding elements_of array_of
elements_of-array_of f get e [] = refl
elements_of-array_of f get e (x ∷ xs) = rw (e x, elements_of-array_of f get e xs) refl

-- What to_ros_param gives for a value that came from ROS: the arrays of no elements are lost.
abbrev pub back_at_ros : RosValue → Attempt RosValue
back_at_ros (ros_bool_array []) = undefined_behaviour
back_at_ros (ros_integer_array []) = undefined_behaviour
back_at_ros (ros_double_array []) = undefined_behaviour
back_at_ros (ros_string_array []) = undefined_behaviour
back_at_ros v = done v

value_to_ros-value_from_ros : (v : RosValue) → value_to_ros (value_from_ros v) ≡ back_at_ros v
unfolding value_to_ros value_from_ros array_of
value_to_ros-value_from_ros ros_not_set = refl
value_to_ros-value_from_ros (ros_bool b) = refl
value_to_ros-value_from_ros (ros_integer n) = refl
value_to_ros-value_from_ros (ros_double d) = refl
value_to_ros-value_from_ros (ros_string s) = refl
value_to_ros-value_from_ros (ros_byte_array bs) = refl
value_to_ros-value_from_ros (ros_bool_array []) = refl
value_to_ros-value_from_ros (ros_bool_array (b ∷ bs)) =
    rw (elements_of-array_of of_bool get_bool (λ a. refl) bs) refl
value_to_ros-value_from_ros (ros_integer_array []) = refl
value_to_ros-value_from_ros (ros_integer_array (n ∷ ns)) =
    rw (elements_of-array_of of_integer get_integer (λ a. refl) ns) refl
value_to_ros-value_from_ros (ros_double_array []) = refl
value_to_ros-value_from_ros (ros_double_array (d ∷ ds)) =
    rw (elements_of-array_of of_double get_double (λ a. refl) ds) refl
value_to_ros-value_from_ros (ros_string_array []) = refl
value_to_ros-value_from_ros (ros_string_array (s ∷ ss)) =
    rw (elements_of-array_of of_string get_text (λ a. refl) ss) refl

-- A parameter that came from ROS goes back as it was, with its type, unless it is an array without elements:
-- for that one to_ros_param has no defined behaviour.
pub to_ros_param-from_ros_param :
    (p : RosParameter)
    → to_ros_param (from_ros_param p)
      ≡ map_attempt (λ v. record { name = p.name; value = v }) (back_at_ros p.value)
unfolding to_ros_param from_ros_param
to_ros_param-from_ros_param p =
    ap (map_attempt (λ v. record { name = p.name; value = v }))
      (value_to_ros-value_from_ros p.value)
