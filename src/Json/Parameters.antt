-- ===== src/Json/Parameters.antt =====
-- The JSON conversions of parameters (serialization.cpp). A JSON value is what `type()` and `get` of nlohmann::json
-- show of it; the members of an object stand in the order in which the container goes through them.
pub mod RoundTrip
use Prim.Native.String.{◌++◌}
use co_bridge.Base.{
  ℕ, ◌-◌, ◌^◌, String, Bool, Option, none, some, ltb, text_keys, ◌==◌, if◌then◌else◌,
}
use co_bridge.Base.Int.{ℤ, pos, negsuc}
use co_bridge.Base.Errors.{Exception, standard, text}
use co_bridge.Base.Attempt.{
  Attempt, done, raised, undefined_behaviour, attempt_of, map_attempt, and_then,
}
use co_bridge.Base64.{base64_encode, base64_decode}
use co_bridge.Parameter.{
  Parameter, ParameterValue, not_set, of_bool, of_integer, of_double, of_string, of_bytes, of_array,
  of_struct, ValueList, nil, cons, ValueMap, entry,
}
use co_bridge.Parameter
use co_bridge.Server.Dispatch.{bytes_of}
use co_bridge.Json.Ascii.{text_of_bytes}
use co_bridge.Json.Doubles.{double_of}

mutual
  pub data JsonValue : Type 0 where
    json_null : JsonValue
    json_boolean : Bool → JsonValue
    json_integer : ℤ → JsonValue
    json_unsigned json_float : ℕ → JsonValue
    json_string : String → JsonValue
    json_array : JsonItems → JsonValue
    json_object : JsonMembers → JsonValue
    -- value_t::binary and value_t::discarded
    json_other : JsonValue

  pub data JsonItems : Type 0 where
    no_element : JsonItems
    element : JsonValue → JsonItems → JsonItems

  pub data JsonMembers : Type 0 where
    no_member : JsonMembers
    named : String → JsonValue → JsonMembers → JsonMembers

-- to_json of a value
unfoldable mutual
  pub value_to_json : ParameterValue → JsonValue
  value_to_json (of_bool b) = json_boolean b
  value_to_json (of_integer n) = json_integer n
  value_to_json (of_double d) = json_float d
  value_to_json (of_string s) = json_string s
  value_to_json (of_bytes bs) = json_string (text_of_bytes (base64_encode bs))
  value_to_json (of_struct fs) = json_object (members_to_json fs)
  value_to_json (of_array vs) = json_array (items_to_json vs)
  value_to_json not_set = json_null

  pub items_to_json : ValueList → JsonItems
  items_to_json nil = no_element
  items_to_json (cons v vs) = element (value_to_json v) (items_to_json vs)

  pub members_to_json : ValueMap → JsonMembers
  members_to_json Parameter.end = no_member
  members_to_json (entry k v fs) = named k (value_to_json v) (members_to_json fs)

-- `get<int64_t>` of a number that is stored without a sign
unfoldable pub int64_of : ℕ → ℤ
int64_of n = if ltb n (2 ^ 63) then pos n else negsuc (2 ^ 64 - 1 - n)

-- from_json of a value, into one that is not set
unfoldable mutual
  pub value_from_json : JsonValue → ParameterValue
  value_from_json (json_string s) = of_string s
  value_from_json (json_boolean b) = of_bool b
  value_from_json (json_integer n) = of_integer n
  value_from_json (json_unsigned n) = of_integer (int64_of n)
  value_from_json (json_float d) = of_double d
  value_from_json (json_object fs) = of_struct (members_from_json fs)
  value_from_json (json_array vs) = of_array (items_from_json vs)
  value_from_json json_null = not_set
  value_from_json json_other = not_set

  pub items_from_json : JsonItems → ValueList
  items_from_json no_element = nil
  items_from_json (element v vs) = cons (value_from_json v) (items_from_json vs)

  pub members_from_json : JsonMembers → ValueMap
  members_from_json no_member = Parameter.end
  members_from_json (named k v fs) = entry k (value_from_json v) (members_from_json fs)

-- What to_json writes as the type of a parameter.
unfoldable pub written_type : ParameterValue → Option String
written_type (of_bytes bs) = some "byte_array"
written_type (of_double d) = some "float64"
written_type (of_array (cons (of_double d) vs)) = some "float64_array"
written_type _ = none

unfoldable pub type_member : Option String → JsonMembers
type_member none = no_member
type_member (some t) = named "type" (json_string t) no_member

-- to_json of a parameter
unfoldable pub parameter_to_json : Parameter → JsonValue
unfolding value_to_json written_type type_member
parameter_to_json p = json_object (
    named "value" (value_to_json p.value)
      (named "name" (json_string p.name) (type_member (written_type p.value))))

-- `find` of a JSON value, `none` for `end()`
unfoldable pub find_named : String → JsonMembers → Option JsonValue
find_named key no_member = none
find_named key (named k v rest) =
    let later = find_named key rest in if key == k then some v else later

-- An access to a value of the wrong type throws nlohmann::json's type_error.
abbrev type_error : Exception
type_error = standard (text "[json.exception.type_error]")

unfoldable pub get_text : JsonValue → Attempt String
get_text (json_string s) = done s
get_text _ = raised type_error

abbrev pub non_numeric : String → Exception
non_numeric name =
    standard (text ("Parameter '" ++ name ++ "' (float64_array) contains non-numeric elements."))

unfoldable pub double_from : String → ParameterValue → Attempt ParameterValue
double_from name (of_integer n) = done (of_double (double_of n))
double_from name (of_double d) = done (of_double d)
double_from name _ = raised (non_numeric name)

-- The loop over the elements of a float64_array.
unfoldable pub doubles_from : String → ValueList → Attempt ValueList
unfolding double_from
doubles_from name nil = done nil
doubles_from name (cons v vs) =
    let rest = doubles_from name vs in
    and_then (double_from name v) (λ d. map_attempt (cons d) rest)

-- The value by the type that is given beside it.
unfoldable pub value_as : String → String → ParameterValue → Attempt ParameterValue
unfolding doubles_from
value_as name t (of_string s) =
    if t == "byte_array"
    then map_attempt of_bytes (attempt_of (base64_decode (bytes_of s)))
    else done (of_string s)
value_as name t (of_integer n) =
    done (if t == "float64" then of_double (double_of n) else of_integer n)
value_as name t (of_array vs) =
    if t == "float64_array" then map_attempt of_array (doubles_from name vs) else done (of_array vs)
value_as name t v = done v

unfoldable pub read_type : Option JsonValue → Attempt String
unfolding get_text
read_type none = done ""
read_type (some t) = get_text t

unfoldable pub with_value : String → Option JsonValue → Option JsonValue → Attempt Parameter
unfolding read_type value_as value_from_json
with_value name none t = done (record { name = name; value = not_set })
with_value name (some v) t = and_then (read_type t) λ type_name.
    map_attempt (λ value. record { name = name; value = value })
      (value_as name type_name (value_from_json v))

-- `operator[]` of a const value has no defined behaviour for a name that is not there.
unfoldable pub read_name : Option JsonValue → Attempt String
unfolding get_text
read_name none = undefined_behaviour
read_name (some n) = get_text n

-- from_json of a parameter
unfoldable pub parameter_from_json : JsonValue → Attempt Parameter
unfolding read_name with_value find_named
parameter_from_json (json_object fs) =
    and_then (read_name (find_named "name" fs))
      λ name. with_value name (find_named "value" fs) (find_named "type" fs)
parameter_from_json _ = raised type_error
