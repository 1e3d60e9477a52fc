-- ===== src/Ros1Bridge/RoundTrip.antt =====
-- Parameters that go to ROS 1 and come back.
use co_bridge.Base.{◌≡◌, refl, ap, ◌∙◌, arith}
use co_bridge.Base.Int.{ℤ, pos, negsuc}
use co_bridge.Base.Action.{Outcome, returned, thrown}
use co_bridge.Parameter
use co_bridge.Parameter.{
  ParameterValue, not_set, of_bool, of_integer, of_double, of_string, of_bytes, of_array, of_struct,
  ValueList, nil, cons, ValueMap, entry,
}
use co_bridge.Ros1Bridge.Conversion.{
  XmlRpcValue, boolean, int, double, string, array, struct, XmlRpcItems, no_items, item,
  XmlRpcMembers, no_members, member, value_from_ros, items_from_ros, members_from_ros, to_int,
  value_to_ros, items_to_ros, members_to_ros, IsInt32, IsRos1Value, AreRos1Values, AreRos1Members,
}

abbrev pub and_then : {A B : Type 0} → Outcome A → (A → Outcome B) → Outcome B
and_then (returned a) f = f a
and_then (thrown x) f = thrown x

to_int_self : (n : ℤ) → IsInt32 n → to_int n ≡ n
unfolding to_int
to_int_self (pos n) h = ground arith
to_int_self (negsuc n) h = ground arith

mutual
  unfolding value_to_ros value_from_ros IsRos1Value

  value_there :
      (v : ParameterValue)
      → IsRos1Value v
      → (x : XmlRpcValue) × (value_to_ros v ≡ returned x) × (value_from_ros x ≡ returned v)
  value_there not_set h = elim h [ ]
  value_there (of_bool b) h = (boolean b, refl, refl)
  value_there (of_integer n) h = (int n, ap (λ m. returned (int m)) (to_int_self n h), refl)
  value_there (of_double d) h = (double d, refl, refl)
  value_there (of_string s) h = (string s, refl, refl)
  value_there (of_bytes bs) h = elim h [ ]
  value_there (of_array nil) h = elim h [ ]
  value_there (of_array (cons v vs)) h =
      let (x, to, from) = value_there v h.0 in
      let (xs, to_all, from_all) = values_there vs h.1 in
      (array (item x xs), rw (to, to_all) refl, rw (from, from_all) refl)
  value_there (of_struct Parameter.end) h = elim h [ ]
  value_there (of_struct (entry k v fs)) h =
      let (x, to, from) = value_there v h.0 in
      let (xs, to_all, from_all) = members_there fs h.1 in
      (struct (member k x xs), rw (to, to_all) refl, rw (from, from_all) refl)

  values_there :
      (vs : ValueList)
      → AreRos1Values vs
      → (xs : XmlRpcItems) × (items_to_ros vs ≡ returned xs) × (items_from_ros xs ≡ returned vs)
  values_there nil h = (no_items, refl, refl)
  values_there (cons v vs) h =
      let (x, to, from) = value_there v h.0 in
      let (xs, to_all, from_all) = values_there vs h.1 in
      (item x xs, rw (to, to_all) refl, rw (from, from_all) refl)

  members_there :
      (fs : ValueMap)
      → AreRos1Members fs
      → (xs : XmlRpcMembers) × (members_to_ros fs ≡ returned xs)
        × (members_from_ros xs ≡ returned fs)
  members_there Parameter.end h = (no_members, refl, refl)
  members_there (entry k v fs) h =
      let (x, to, from) = value_there v h.0 in
      let (xs, to_all, from_all) = members_there fs h.1 in
      (member k x xs, rw (to, to_all) refl, rw (from, from_all) refl)

-- A value of integers of 32 bits, without bytes, empty arrays, empty structs or values that are not set in it,
-- comes back from ROS 1 as it was, however deep it is.
pub value_from_ros-value_to_ros :
    (v : ParameterValue) → IsRos1Value v → and_then (value_to_ros v) value_from_ros ≡ returned v
value_from_ros-value_to_ros v h =
    let (x, to, from) = value_there v h in ap (λ o. and_then o value_from_ros) to ∙ from
