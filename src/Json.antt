-- ===== src/Json.antt =====
-- The JSON conversions of channels and services (serialization.cpp). The library nlohmann::json is
-- a parameter: its values and the functions of it that the conversions call.
pub mod RoundTrip
pub mod Doubles
pub mod Ascii
pub mod Parameters
use co_bridge.Base.{ℕ, String, [], ◌∷◌, Option, none, some}
use co_bridge.Base.Assoc.{Assoc}
use co_bridge.Server.Types.{Channel, Service}

-- What a conversion of JSON does: a value of the wrong type throws, and the const `operator[]` has
-- no defined behaviour for a key that is not there.
pub data Conversion (A : Type 0) : Type 0 where
  converted : A → Conversion A
  type_error undefined_behaviour : Conversion A

infixl 5 ◌>>=◌
unfoldable pub ◌>>=◌ : {A B : Type 0} → Conversion A → (A → Conversion B) → Conversion B
converted a >>= f = f a
type_error >>= f = type_error
undefined_behaviour >>= f = undefined_behaviour

abbrev pub required : {A : Type 0} → Option A → Conversion A
required none = undefined_behaviour
required (some value) = converted value

-- `object` is an initializer list of pairs, `assign` is `json_obj[key] = value`, `find_member` is
-- `find` with `none` for `end()`, `get_text` is `get<std::string>`, and `get_id` is `get<uint32_t>`.
pub record JsonValues : Type 1 where
  pub Json : Type 0
  pub text : String → Json
  pub number : ℕ → Json
  pub object : Assoc String Json → Json
  pub assign : String → Json → Json → Json
  pub find_member : String → Json → Option Json
  pub get_text : Json → Conversion String
  pub get_id : Json → Conversion ℕ

module _ (lib : JsonValues) where
  abbrev pub add_encoding : Option String → lib.Json → lib.Json
  add_encoding none json = json
  add_encoding (some encoding) json = lib.assign "schemaEncoding" (lib.text encoding) json

  -- to_json of a channel
  unfoldable pub channel_to_json : Channel → lib.Json
  channel_to_json chan = add_encoding chan.without_id.schema_encoding (
      lib.object (
        ("id", lib.number chan.id)
        ∷ ("topic", lib.text chan.without_id.topic)
        ∷ ("encoding", lib.text chan.without_id.encoding)
        ∷ ("schemaName", lib.text chan.without_id.schema_name)
        ∷ ("schema", lib.text chan.without_id.schema)
        ∷ []))

  -- `operator[]` of a const value
  unfoldable pub member : String → lib.Json → Conversion lib.Json
  member key json = required (lib.find_member key json)

  unfoldable pub text_member : String → lib.Json → Conversion String
  unfolding member ◌>>=◌
  text_member key json = member key json >>= lib.get_text

  unfoldable pub id_member : lib.Json → Conversion ℕ
  unfolding member ◌>>=◌
  id_member json = member "id" json >>= lib.get_id

  unfoldable pub optional_text : Option lib.Json → Conversion (Option String)
  unfolding ◌>>=◌
  optional_text none = converted none
  optional_text (some value) = lib.get_text value >>= λ encoding. converted (some encoding)

  unfoldable pub schema_encoding_of : lib.Json → Conversion (Option String)
  unfolding optional_text
  schema_encoding_of json = optional_text (lib.find_member "schemaEncoding" json)

  -- from_json of a channel
  unfoldable pub channel_from_json : lib.Json → Conversion Channel
  unfolding schema_encoding_of text_member id_member ◌>>=◌
  channel_from_json json = do
    schema_encoding ← schema_encoding_of json
    topic ← text_member "topic" json
    encoding ← text_member "encoding" json
    schema_name ← text_member "schemaName" json
    schema ← text_member "schema" json
    id ← id_member json
    converted (record {
      id = id;
      without_id = record {
        topic = topic;
        encoding = encoding;
        schema_name = schema_name;
        schema = schema;
        schema_encoding = schema_encoding;
      };
    })

  -- to_json of a service
  unfoldable pub service_to_json : Service → lib.Json
  service_to_json service = lib.object (
      ("id", lib.number service.id)
      ∷ ("name", lib.text service.without_id.name)
      ∷ ("type", lib.text service.without_id.service_type)
      ∷ ("requestSchema", lib.text service.without_id.request_schema)
      ∷ ("responseSchema", lib.text service.without_id.response_schema)
      ∷ [])

  -- from_json of a service
  unfoldable pub service_from_json : lib.Json → Conversion Service
  unfolding text_member id_member ◌>>=◌
  service_from_json json = do
    id ← id_member json
    name ← text_member "name" json
    service_type ← text_member "type" json
    request_schema ← text_member "requestSchema" json
    response_schema ← text_member "responseSchema" json
    converted (record {
      id = id;
      without_id = record {
        name = name;
        service_type = service_type;
        request_schema = request_schema;
        response_schema = response_schema;
      };
    })
