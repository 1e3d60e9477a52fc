-- ===== src/Parameter.antt =====
-- Parameters (parameter.hpp, parameter.cpp): a value with the tag that says how to read it.
use co_bridge.Base.{ℕ, String, List, Bool, true, false}
use co_bridge.Base.Int.{ℤ}

pub data ParameterType : Type 0 where
  parameter_not_set parameter_bool parameter_integer parameter_double : ParameterType
  parameter_string parameter_array parameter_struct parameter_byte_array : ParameterType

-- A constructor for each constructor of the class. A `double` is its 64-bit pattern.
mutual
  pub data ParameterValue : Type 0 where
    not_set : ParameterValue
    of_bool : Bool → ParameterValue
    of_integer : ℤ → ParameterValue
    of_double : ℕ → ParameterValue
    of_string : String → ParameterValue
    of_bytes : List ℕ → ParameterValue
    of_array : ValueList → ParameterValue
    of_struct : ValueMap → ParameterValue

  pub data ValueList : Type 0 where
    nil : ValueList
    cons : ParameterValue → ValueList → ValueList

  pub data ValueMap : Type 0 where
    end : ValueMap
    entry : String → ParameterValue → ValueMap → ValueMap

-- `getType`
unfoldable pub type_of : ParameterValue → ParameterType
type_of not_set = parameter_not_set
type_of (of_bool b) = parameter_bool
type_of (of_integer n) = parameter_integer
type_of (of_double d) = parameter_double
type_of (of_string s) = parameter_string
type_of (of_bytes bs) = parameter_byte_array
type_of (of_array vs) = parameter_array
type_of (of_struct fs) = parameter_struct

pub record Parameter : Type 0 where
  pub name : String
  pub value : ParameterValue

-- `p.get_type() != ParameterType::PARAMETER_NOT_SET`
unfoldable pub is_set : Parameter → Bool
unfolding type_of
is_set p = elim (type_of p.value) [ parameter_not_set ↦ false | _ ↦ true ]
