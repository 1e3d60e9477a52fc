-- ===== src/Json/Parameters/RoundTrip.antt =====
-- A parameter that went through JSON.
use Prim.Native.String.{String}
use co_bridge.Base.{ℕ, ◌≡◌, refl, List, All, none, some, text_keys}
use co_bridge.Base.Attempt.{done}
use co_bridge.Base.Action.{returned}
use co_bridge.Base64.{base64_encode, base64_decode}
use co_bridge.Base64.RoundTrip.{decode-encode}
use co_bridge.Wire.Layout.{IsByte}
use co_bridge.Server.Dispatch.{bytes_of}
use co_bridge.Parameter.{
  Parameter, ParameterValue, not_set, of_bool, of_integer, of_double, of_string, of_bytes, of_array,
  of_struct, ValueList, nil, cons, ValueMap, entry,
}
use co_bridge.Parameter
use co_bridge.Json.Ascii.{text_of_bytes, bytes_of-text_of_bytes, base64_encode-ascii}
use co_bridge.Json.Parameters.{
  value_to_json, items_to_json, members_to_json, value_from_json, items_from_json,
  members_from_json, written_type, type_member, parameter_to_json, parameter_from_json, find_named,
  get_text, read_type, read_name, with_value, value_as, doubles_from, double_from,
}

-- No bytes stand in the value.
abbrev mutual
  pub IsWithoutBytes : ParameterValue → Type 0
  IsWithoutBytes (of_bytes bs) = ⊥
  IsWithoutBytes (of_array vs) = AreWithoutBytes vs
  IsWithoutBytes (of_struct fs) = HasNoBytes fs
  IsWithoutBytes _ = Unit

  pub AreWithoutBytes : ValueList → Type 0
  AreWithoutBytes nil = Unit
  AreWithoutBytes (cons v vs) = IsWithoutBytes v × AreWithoutBytes vs

  pub HasNoBytes : ValueMap → Type 0
  HasNoBytes Parameter.end = Unit
  HasNoBytes (entry k v fs) = IsWithoutBytes v × HasNoBytes fs

abbrev pub AreDoubles : ValueList → Type 0
AreDoubles nil = Unit
AreDoubles (cons (of_double d) vs) = AreDoubles vs
AreDoubles (cons _ vs) = ⊥

-- An array that starts with a double holds doubles only.
abbrev pub IsUniform : ValueList → Type 0
IsUniform (cons (of_double d) vs) = AreDoubles vs
IsUniform _ = Unit

abbrev pub IsJsonValue : ParameterValue → Type 0
IsJsonValue (of_bytes bs) = All IsByte bs
IsJsonValue (of_array vs) = AreWithoutBytes vs × IsUniform vs
IsJsonValue (of_struct fs) = HasNoBytes fs
IsJsonValue _ = Unit

mutual
  unfolding value_from_json value_to_json

  value_back : (v : ParameterValue) → IsWithoutBytes v → value_from_json (value_to_json v) ≡ v
  value_back not_set h = refl
  value_back (of_bool b) h = refl
  value_back (of_integer n) h = refl
  value_back (of_double d) h = refl
  value_back (of_string s) h = refl
  value_back (of_bytes bs) h = elim h [ ]
  value_back (of_array vs) h = rw (items_back vs h) refl
  value_back (of_struct fs) h = rw (members_back fs h) refl

  items_back : (vs : ValueList) → AreWithoutBytes vs → items_from_json (items_to_json vs) ≡ vs
  items_back nil h = refl
  items_back (cons v vs) h = rw (value_back v h.0, items_back vs h.1) refl

  members_back : (fs : ValueMap) → HasNoBytes fs → members_from_json (members_to_json fs) ≡ fs
  members_back Parameter.end h = refl
  members_back (entry k v fs) h = rw (value_back v h.0, members_back fs h.1) refl

doubles_back : (name : String) (vs : ValueList) → AreDoubles vs → doubles_from name vs ≡ done vs
unfolding doubles_from double_from
doubles_back name nil h = refl
doubles_back name (cons (of_double d) vs) h = rw (doubles_back name vs h) refl
doubles_back name (cons not_set vs) h = elim h [ ]
doubles_back name (cons (of_bool b) vs) h = elim h [ ]
doubles_back name (cons (of_integer n) vs) h = elim h [ ]
doubles_back name (cons (of_string s) vs) h = elim h [ ]
doubles_back name (cons (of_bytes bs) vs) h = elim h [ ]
doubles_back name (cons (of_array ws) vs) h = elim h [ ]
doubles_back name (cons (of_struct fs) vs) h = elim h [ ]

bytes_back :
    (bs : List ℕ)
    → All IsByte bs
    → base64_decode (bytes_of (text_of_bytes (base64_encode bs))) ≡ returned bs
bytes_back bs h =
    rw (bytes_of-text_of_bytes (base64_encode bs) (base64_encode-ascii bs)) (decode-encode bs h)

-- An array that does not start with a double has no type beside it.
untyped_array :
    (name : String) (v : ParameterValue) (vs : ValueList)
    → written_type (of_array (cons v vs)) ≡ none
    → AreWithoutBytes (cons v vs)
    → with_value name
        (some (value_to_json (of_array (cons v vs))))
        (find_named "type" (type_member (written_type (of_array (cons v vs)))))
      ≡ done (record { name = name; value = of_array (cons v vs) })
unfolding with_value read_type value_as value_from_json value_to_json find_named type_member
untyped_array name v vs untyped h = rw (untyped, value_back v h.0, items_back vs h.1) refl

value_there :
    (name : String) (v : ParameterValue)
    → IsJsonValue v
    → with_value name (some (value_to_json v)) (find_named "type" (type_member (written_type v)))
      ≡ done (record { name = name; value = v })
unfolding with_value read_type value_as value_from_json value_to_json find_named type_member
    written_type get_text doubles_from double_from
value_there name not_set h = refl
value_there name (of_bool b) h = refl
value_there name (of_integer n) h = refl
value_there name (of_double d) h = refl
value_there name (of_string s) h = refl
value_there name (of_bytes bs) h = rw (bytes_back bs h) refl
value_there name (of_struct fs) h = rw (members_back fs h) refl
value_there name (of_array nil) h = refl
value_there name (of_array (cons (of_double d) vs)) h =
    rw (items_back vs h.0.1, doubles_back name vs h.1) refl
value_there name (of_array (cons not_set vs)) h = untyped_array name _ vs refl h.0
value_there name (of_array (cons (of_bool b) vs)) h = untyped_array name _ vs refl h.0
value_there name (of_array (cons (of_integer n) vs)) h = untyped_array name _ vs refl h.0
value_there name (of_array (cons (of_string s) vs)) h = untyped_array name _ vs refl h.0
value_there name (of_array (cons (of_bytes bs) vs)) h = elim h.0.0 [ ]
value_there name (of_array (cons (of_array ws) vs)) h = untyped_array name _ vs refl h.0
value_there name (of_array (cons (of_struct fs) vs)) h = untyped_array name _ vs refl h.0

-- A parameter comes back from JSON as it was, with the type of its value: a byte array of bytes, a struct or an array
-- without byte arrays in it, however deep it is, and any other value; an array that starts with a double holds doubles
-- only.
pub parameter_from_json-parameter_to_json :
    (p : Parameter) → IsJsonValue p.value → parameter_from_json (parameter_to_json p) ≡ done p
unfolding parameter_from_json parameter_to_json read_name find_named get_text
parameter_from_json-parameter_to_json p h = value_there p.name p.value h
