-- ===== src/Json/RoundTrip.antt =====
-- A channel and a service that went through JSON.
use co_bridge.Base.{
  ℕ, String, ◌≡◌, refl, ap, false, ◌∙◌, ◌^◌, ◌<◌, [], ◌∷◌, Option, none, some, text_keys, ◌==◌,
  if◌then◌else◌,
}
use co_bridge.Base.Assoc.{Assoc, find}
use co_bridge.Server.Types.{Channel, ChannelWithoutId, Service}
use co_bridge.Json.{
  JsonValues, converted, ◌>>=◌, channel_to_json, channel_from_json, service_to_json,
  service_from_json, member, text_member, id_member, schema_encoding_of, add_encoding,
  optional_text, required,
}

-- What the conversions rely on: an object has the members that it was made of, and what was
-- assigned later, and a text and a 32-bit number are read as they were written.
pub record IsJson (lib : JsonValues) : Type 0 where
  pub find_object :
      (key : String) (m : Assoc String lib.Json) → lib.find_member key (lib.object m) ≡ find key m
  pub find_assign :
      (key other : String) (value : lib.Json) (m : Assoc String lib.Json)
      → lib.find_member key (lib.assign other value (lib.object m))
        ≡ (if key == other then some value else find key m)
  pub get_text : (s : String) → lib.get_text (lib.text s) ≡ converted s
  pub get_number : (n : ℕ) → n < 2 ^ 32 → lib.get_id (lib.number n) ≡ converted n

module _ (lib : JsonValues) (is_json : IsJson lib) where
  text_of_member :
      (key s : String) (json : lib.Json)
      → lib.find_member key json ≡ some (lib.text s)
      → text_member lib key json ≡ converted s
  unfolding text_member member ◌>>=◌
  text_of_member key s json h = ap (λ o. required o >>= lib.get_text) h ∙ is_json.get_text s

  id_of_member :
      (n : ℕ) (json : lib.Json)
      → lib.find_member "id" json ≡ some (lib.number n)
      → n < 2 ^ 32
      → id_member lib json ≡ converted n
  unfolding id_member member ◌>>=◌
  id_of_member n json h small = ap (λ o. required o >>= lib.get_id) h ∙ is_json.get_number n small

  module _ (service : Service) where
    abbrev members : Assoc String lib.Json
    members =
        ("id", lib.number service.id)
        ∷ ("name", lib.text service.without_id.name)
        ∷ ("type", lib.text service.without_id.service_type)
        ∷ ("requestSchema", lib.text service.without_id.request_schema)
        ∷ ("responseSchema", lib.text service.without_id.response_schema)
        ∷ []

    service_member :
        (key : String) → lib.find_member key (service_to_json lib service) ≡ find key members
    unfolding service_to_json
    service_member key = is_json.find_object key members

  -- A service whose identifier has 32 bits is read from its JSON as it was.
  pub service_from_json-service_to_json :
      (service : Service)
      → service.id < 2 ^ 32
      → service_from_json lib (service_to_json lib service) ≡ converted service
  unfolding service_from_json find ◌>>=◌
  service_from_json-service_to_json service small =
      let json = service_to_json lib service in
      let a = id_of_member service.id json (service_member service "id") small in
      let b = text_of_member "name" service.without_id.name json (service_member service "name") in
      let c =
        text_of_member "type" service.without_id.service_type json
          (service_member service "type") in
      let d =
        text_of_member "requestSchema" service.without_id.request_schema json
          (service_member service "requestSchema") in
      let e =
        text_of_member "responseSchema" service.without_id.response_schema json
          (service_member service "responseSchema") in
      rw a (rw b (rw c (rw d (rw e refl))))

  module _ (channel : ChannelWithoutId) (id : ℕ) where
    abbrev fields : Assoc String lib.Json
    fields =
        ("id", lib.number id)
        ∷ ("topic", lib.text channel.topic)
        ∷ ("encoding", lib.text channel.encoding)
        ∷ ("schemaName", lib.text channel.schema_name)
        ∷ ("schema", lib.text channel.schema)
        ∷ []

    channel_member :
        (key : String) (encoding : Option String)
        → (key == "schemaEncoding") ≡ false
        → lib.find_member key (add_encoding lib encoding (lib.object fields)) ≡ find key fields
    channel_member key none other = is_json.find_object key fields
    channel_member key (some encoding) other =
        is_json.find_assign key "schemaEncoding" (lib.text encoding) fields
        ∙ ap (λ c. if c then some (lib.text encoding) else find key fields) other

    encoding_member :
        (encoding : Option String)
        → schema_encoding_of lib (add_encoding lib encoding (lib.object fields))
          ≡ converted encoding
    unfolding schema_encoding_of optional_text find ◌>>=◌
    encoding_member none = ap (optional_text lib) (is_json.find_object "schemaEncoding" fields)
    encoding_member (some encoding) =
        ap (optional_text lib)
          (is_json.find_assign "schemaEncoding" "schemaEncoding" (lib.text encoding) fields)
        ∙ ap (λ c. c >>= λ e. converted (some e)) (is_json.get_text encoding)

  -- Where the JSON library is lawful, a channel whose identifier has 32 bits is read from its JSON as it was, with or without a schema encoding.
  pub channel_from_json-channel_to_json :
      (chan : Channel)
      → chan.id < 2 ^ 32
      → channel_from_json lib (channel_to_json lib chan) ≡ converted chan
  unfolding channel_from_json channel_to_json find ◌>>=◌
  channel_from_json-channel_to_json chan small =
      let channel = chan.without_id in
      let json = add_encoding lib channel.schema_encoding (lib.object (fields channel chan.id)) in
      let get : (key : String)
          → (key == "schemaEncoding") ≡ false
          → lib.find_member key json ≡ find key (fields channel chan.id) =
        λ key. channel_member channel chan.id key channel.schema_encoding in
      let a = encoding_member channel chan.id channel.schema_encoding in
      let b = text_of_member "topic" channel.topic json (get "topic" refl) in
      let c = text_of_member "encoding" channel.encoding json (get "encoding" refl) in
      let d = text_of_member "schemaName" channel.schema_name json (get "schemaName" refl) in
      let e = text_of_member "schema" channel.schema json (get "schema" refl) in
      let f = id_of_member chan.id json (get "id" refl) small in
      rw a (rw b (rw c (rw d (rw e (rw f refl)))))
