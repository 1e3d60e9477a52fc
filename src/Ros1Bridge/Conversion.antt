-- ===== src/Ros1Bridge/Conversion.antt =====
-- fromRosParam and to_ros_param (ros1_bridge/src/param_utils.cpp). An XmlRpcValue is what its type says: a
-- value that nothing was assigned to is invalid, and assigning to an index or a key of it makes it an array
-- or a struct.
use co_bridge.Base.{ℕ, String, ◌-◌, ◌^◌, ◌%◌, ◌<◌, Bool, ltb, if◌then◌else◌}
use co_bridge.Base.Int.{ℤ, pos, negsuc}
use co_bridge.Base.Errors.{standard, text, unsupported_parameter_type}
use co_bridge.Base.Action.{Outcome, returned, thrown}
use co_bridge.Parameter
use co_bridge.Parameter.{
  Parameter, ParameterValue, not_set, of_bool, of_integer, of_double, of_string, of_bytes, of_array,
  of_struct, ValueList, nil, cons, ValueMap, entry,
}

mutual
  pub data XmlRpcValue : Type 0 where
    invalid : XmlRpcValue
    boolean : Bool → XmlRpcValue
    int : ℤ → XmlRpcValue
    double : ℕ → XmlRpcValue
    string : String → XmlRpcValue
    -- any other type, by its number
    other_type : ℕ → XmlRpcValue
    array : XmlRpcItems → XmlRpcValue
    struct : XmlRpcMembers → XmlRpcValue

  pub data XmlRpcItems : Type 0 where
    no_items : XmlRpcItems
    item : XmlRpcValue → XmlRpcItems → XmlRpcItems

  pub data XmlRpcMembers : Type 0 where
    no_members : XmlRpcMembers
    member : String → XmlRpcValue → XmlRpcMembers → XmlRpcMembers

abbrev pub both : {A B C : Type 0} → (A → B → C) → Outcome A → Outcome B → Outcome C
both f (returned a) (returned b) = returned (f a b)
both f (returned a) (thrown x) = thrown x
both f (thrown x) o = thrown x

abbrev pub map_outcome : {A B : Type 0} → (A → B) → Outcome A → Outcome B
map_outcome f (returned a) = returned (f a)
map_outcome f (thrown x) = thrown x

-- fromRosParam. The keys of a struct are distinct, so `insert` always inserts.
unfoldable mutual
  pub value_from_ros : XmlRpcValue → Outcome ParameterValue
  value_from_ros invalid = thrown (standard (text "Parameter not set"))
  value_from_ros (boolean b) = returned (of_bool b)
  value_from_ros (int n) = returned (of_integer n)
  value_from_ros (double d) = returned (of_double d)
  value_from_ros (string s) = returned (of_string s)
  value_from_ros (other_type n) = thrown (standard (unsupported_parameter_type n))
  value_from_ros (array xs) = map_outcome of_array (items_from_ros xs)
  value_from_ros (struct ms) = map_outcome of_struct (members_from_ros ms)

  pub items_from_ros : XmlRpcItems → Outcome ValueList
  items_from_ros no_items = returned nil
  items_from_ros (item x xs) = both cons (value_from_ros x) (items_from_ros xs)

  pub members_from_ros : XmlRpcMembers → Outcome ValueMap
  members_from_ros no_members = returned Parameter.end
  members_from_ros (member k x ms) = both (entry k) (value_from_ros x) (members_from_ros ms)

-- `static_cast<int>` of an int64_t
unfoldable pub to_int : ℤ → ℤ
to_int (pos n) = let r = n % 2 ^ 32 in if ltb r (2 ^ 31) then pos r else negsuc (2 ^ 32 - 1 - r)
to_int (negsuc n) = let r = n % 2 ^ 32 in if ltb r (2 ^ 31) then negsuc r else pos (2 ^ 32 - 1 - r)

-- An array or a struct that nothing is assigned to stays invalid.
abbrev pub array_or_invalid : XmlRpcItems → XmlRpcValue
array_or_invalid no_items = invalid
array_or_invalid (item x xs) = array (item x xs)

abbrev pub struct_or_invalid : XmlRpcMembers → XmlRpcValue
struct_or_invalid no_members = invalid
struct_or_invalid (member k x ms) = struct (member k x ms)

-- to_ros_param
unfoldable mutual
  unfolding to_int

  pub value_to_ros : ParameterValue → Outcome XmlRpcValue
  value_to_ros not_set = thrown (standard (text "Unsupported parameter type"))
  value_to_ros (of_bool b) = returned (boolean b)
  value_to_ros (of_integer n) = returned (int (to_int n))
  value_to_ros (of_double d) = returned (double d)
  value_to_ros (of_string s) = returned (string s)
  value_to_ros (of_bytes bs) = thrown (standard (text "Unsupported parameter type"))
  value_to_ros (of_array vs) = map_outcome array_or_invalid (items_to_ros vs)
  value_to_ros (of_struct fs) = map_outcome struct_or_invalid (members_to_ros fs)

  pub items_to_ros : ValueList → Outcome XmlRpcItems
  items_to_ros nil = returned no_items
  items_to_ros (cons v vs) = both item (value_to_ros v) (items_to_ros vs)

  pub members_to_ros : ValueMap → Outcome XmlRpcMembers
  members_to_ros Parameter.end = returned no_members
  members_to_ros (entry k v fs) = both (member k) (value_to_ros v) (members_to_ros fs)

unfoldable pub parameter_from_ros : String → XmlRpcValue → Outcome Parameter
unfolding value_from_ros
parameter_from_ros name value =
    map_outcome (λ v. record { name = name; value = v }) (value_from_ros value)

-- What ROS 1 can hold as it is: integers of 32 bits, and no empty array or struct, no bytes, and nothing that
-- is not set.
abbrev pub IsInt32 : ℤ → Type 0
IsInt32 (pos n) = n < 2 ^ 31
IsInt32 (negsuc n) = n < 2 ^ 31

unfoldable mutual
  pub IsRos1Value : ParameterValue → Type 0
  IsRos1Value not_set = ⊥
  IsRos1Value (of_bool b) = Unit
  IsRos1Value (of_integer n) = IsInt32 n
  IsRos1Value (of_double d) = Unit
  IsRos1Value (of_string s) = Unit
  IsRos1Value (of_bytes bs) = ⊥
  IsRos1Value (of_array nil) = ⊥
  IsRos1Value (of_array (cons v vs)) = IsRos1Value v × AreRos1Values vs
  IsRos1Value (of_struct Parameter.end) = ⊥
  IsRos1Value (of_struct (entry k v fs)) = IsRos1Value v × AreRos1Members fs

  pub AreRos1Values : ValueList → Type 0
  AreRos1Values nil = Unit
  AreRos1Values (cons v vs) = IsRos1Value v × AreRos1Values vs

  pub AreRos1Members : ValueMap → Type 0
  AreRos1Members Parameter.end = Unit
  AreRos1Members (entry k v fs) = IsRos1Value v × AreRos1Members fs
