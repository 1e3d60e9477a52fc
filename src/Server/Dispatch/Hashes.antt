-- ===== src/Server/Dispatch/Hashes.antt =====
-- The operations of text messages and the hashes by which `handle_text_message` tells them apart.
use Prim.Native.Nat.{bit_xor}
use Prim.Native.Char.{code}
use co_bridge.Base.{
  ℕ, ◌+◌, ◌*◌, ◌/◌, ◌%◌, ◌^◌, String, List, [], ◌∷◌, ◌++◌, Option, none, some, if◌then◌else◌, ltb,
  ◌==◌, nat_keys,
}

-- The UTF-8 bytes of a character.
unfoldable pub utf8 : ℕ → List ℕ
utf8 c =
    if ltb c 0x80
    then c ∷ []
    else if ltb c 0x800
    then (0xc0 + c / 0x40) ∷ (0x80 + c % 0x40) ∷ []
    else if ltb c 0x10000
    then (0xe0 + c / 0x1000) ∷ (0x80 + c / 0x40 % 0x40) ∷ (0x80 + c % 0x40) ∷ []
    else (0xf0 + c / 0x40000)
      ∷ (0x80 + c / 0x1000 % 0x40)
      ∷ (0x80 + c / 0x40 % 0x40)
      ∷ (0x80 + c % 0x40)
      ∷ []

unfoldable pub bytes_of : String → List ℕ
bytes_of String.[] = []
bytes_of (String.◌∷◌ c s) = utf8 (code c) ++ bytes_of s

-- `static_cast<uint32_t>(str[i])` of a signed `char`
unfoldable pub sign_extend : ℕ → ℕ
sign_extend b = if ltb b 0x80 then b else b + 0xffffff00

unfoldable pub string_hash_impl : List ℕ → ℕ → ℕ
string_hash_impl [] result = result
string_hash_impl (b ∷ bs) result =
    string_hash_impl bs (bit_xor (sign_extend b) result * 0x01000193 % 2 ^ 32)

unfoldable pub string_hash : String → ℕ
string_hash s = string_hash_impl (bytes_of s) 0x811c9dc5

-- The operations of the `switch`, and the text of each.
pub data Operation : Type 0 where
  login subscribe unsubscribe advertise unadvertise get_parameters set_parameters : Operation
  subscribe_parameter_updates unsubscribe_parameter_updates subscribe_connection_graph : Operation
  unsubscribe_connection_graph fetch_asset : Operation

unfoldable pub text_of : Operation → String
text_of login = "login"
text_of subscribe = "subscribe"
text_of unsubscribe = "unsubscribe"
text_of advertise = "advertise"
text_of unadvertise = "unadvertise"
text_of get_parameters = "getParameters"
text_of set_parameters = "setParameters"
text_of subscribe_parameter_updates = "subscribeParameterUpdates"
text_of unsubscribe_parameter_updates = "unsubscribeParameterUpdates"
text_of subscribe_connection_graph = "subscribeConnectionGraph"
text_of unsubscribe_connection_graph = "unsubscribeConnectionGraph"
text_of fetch_asset = "fetchAsset"

-- The constants of the `case` labels.
unfoldable pub hash_of : Operation → ℕ
hash_of op = string_hash (text_of op)

abbrev pub operations : List Operation
operations =
    login ∷ subscribe ∷ unsubscribe ∷ advertise ∷ unadvertise ∷ get_parameters ∷ set_parameters
    ∷ subscribe_parameter_updates ∷ unsubscribe_parameter_updates ∷ subscribe_connection_graph
    ∷ unsubscribe_connection_graph ∷ fetch_asset ∷ []

-- The `case` whose label is the hash, `none` for `default`.
unfoldable pub case_of : ℕ → List Operation → Option Operation
case_of h [] = none
case_of h (op ∷ ops) = if h == hash_of op then some op else case_of h ops
