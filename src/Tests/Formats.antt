-- ===== src/Tests/Formats.antt =====
-- Frames and base64 at concrete bytes.
use co_bridge.Base.{ℕ, zero, suc, ◌≡◌, refl, List, [], ◌∷◌, arith}
use co_bridge.Base.Action.{returned}
use co_bridge.Wire.{ServiceResponse, read_uint32_le, read_response, write_response}
use co_bridge.Wire.RoundTrip.{read-write}
use co_bridge.Base.Int.{pos, negsuc}
use co_bridge.Base.Attempt.{done, raised}
use co_bridge.Parameter.{Parameter, of_integer, of_double, of_string, of_bytes, of_array, cons, nil}
use co_bridge.Json.Doubles.{double_of}
use co_bridge.Json.Parameters.{parameter_to_json, parameter_from_json, non_numeric}
use co_bridge.Json.Parameters.RoundTrip.{parameter_from_json-parameter_to_json}
use co_bridge.Base64.{base64_encode, base64_decode}
use co_bridge.Base64.RoundTrip.{decode-encode}

abbrev response : ServiceResponse
response = record { service_id = 3; call_id = 8; encoding = 0x63 ∷ []; serv_data = 1 ∷ 2 ∷ [] }

abbrev frame : List ℕ
frame = 3 ∷ 0 ∷ 0 ∷ 0 ∷ 8 ∷ 0 ∷ 0 ∷ 0 ∷ 1 ∷ 0 ∷ 0 ∷ 0 ∷ 0x63 ∷ 1 ∷ 2 ∷ []

read-write_example : read_response (write_response response) ≡ returned response
read-write_example = read-write response (record {
  service_id_fits = omega arith;
  call_id_fits = omega arith;
  encoding_fits = omega arith;
})

frame_reads : read_response frame ≡ returned response
unfolding read_response read_uint32_le
frame_reads = refl

abbrev repeated : ℕ → List ℕ
repeated zero = []
repeated (suc n) = 0x63 ∷ repeated n

abbrev long_response : ServiceResponse
long_response = record { service_id = 3; call_id = 8; encoding = repeated 257; serv_data = [] }

decode-encode_example :
    base64_decode (base64_encode (0x66 ∷ 0x6f ∷ 0x6f ∷ 0x62 ∷ []))
    ≡ returned (0x66 ∷ 0x6f ∷ 0x6f ∷ 0x62 ∷ [])
decode-encode_example = decode-encode (0x66 ∷ 0x6f ∷ 0x6f ∷ 0x62 ∷ []) (omega arith)

double_of_three : double_of (pos 3) ≡ 0x4008000000000000
unfolding double_of
double_of_three = refl

double_of_minus_one : double_of (negsuc 0) ≡ 0xbff0000000000000
unfolding double_of
double_of_minus_one = refl

-- 2 ^ 53 + 1 lies between two doubles.
double_of_odd : double_of (pos 9007199254740993) ≡ 0x4340000000000000
unfolding double_of
double_of_odd = refl

abbrev blob : Parameter
blob = record { name = "/blob"; value = of_bytes (1 ∷ 2 ∷ 255 ∷ 7 ∷ []) }

parameter_from_json-parameter_to_json_example :
    parameter_from_json (parameter_to_json blob) ≡ done blob
parameter_from_json-parameter_to_json_example =
    parameter_from_json-parameter_to_json blob
      (omega arith, (omega arith, (omega arith, (omega arith, tt))))

-- An array of a double and a text is written as a float64_array, which is refused when it is read.
abbrev mixed : Parameter
mixed = record { name = "/mixed"; value = of_array (cons (of_double 0) (cons (of_string "a") nil)) }

mixed_refused : parameter_from_json (parameter_to_json mixed) ≡ raised (non_numeric "/mixed")
unfolding parameter_from_json parameter_to_json
mixed_refused = refl

-- An integer after a double comes back as a double.
abbrev numbers : Parameter
numbers = record {
  name = "/numbers";
  value = of_array (cons (of_double 0) (cons (of_integer (pos 3)) nil));
}

numbers_converted :
    parameter_from_json (parameter_to_json numbers)
    ≡ done (record numbers {
      value = of_array (cons (of_double 0) (cons (of_double 0x4008000000000000) nil));
    })
unfolding parameter_from_json parameter_to_json double_of
numbers_converted = refl
