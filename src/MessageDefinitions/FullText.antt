-- ===== src/MessageDefinitions/FullText.antt =====
-- get_full_msg_text and get_full_srv_text of message_definition_cache.cpp: a definition with all that
-- it depends on. The lambda append_recursive takes fuel, for the depth of its recursion.
use co_bridge.Base.{
  ℕ, zero, suc, String, List, [], ◌∷◌, Bool, true, false, Option, none, some, contains,
  if◌then◌else◌,
}
use co_bridge.Base.Assoc.{Assoc}
use co_bridge.Base.Errors.{Exception, standard, definition_not_found}
use co_bridge.Base.Action.{Outcome, returned, thrown}
use co_bridge.MessageDefinitions.Sections.{◌+++◌}
use co_bridge.MessageDefinitions.Specs.{
  identifier_keys, MessageDefinitionFormat, idl, msg, srv_req, srv_resp, DefinitionIdentifier,
  MessageSpec, Packages, delimiter,
}
use co_bridge.MessageDefinitions.Cache.{Cache, CacheAction, load_service_spec, load_message_spec}

-- The cache, and `seen_deps` with the latest first.
pub record Search : Type 0 where
  pub cache : Cache
  pub seen_deps : List DefinitionIdentifier

-- `none` means that the fuel ran out.
abbrev pub SearchAction : Type 0 → Type 0
SearchAction A = Search → Option (Outcome A × Search)

abbrev pub dependency : MessageDefinitionFormat → String → DefinitionIdentifier
dependency f name = record { format = f; package_resource_name = name }

-- What a nested text adds, or its exception.
abbrev pub add_text :
    (String → SearchAction String)
    → String
    → DefinitionIdentifier
    → Option (Outcome String × Search)
    → Option (Outcome String × Search)
add_text next result dep none = none
add_text next result dep (some (returned nested, s)) =
    next (result +++ "\n" +++ delimiter dep +++ nested) s
add_text next result dep (some (thrown x, s)) = some (thrown x, s)

-- The loop over the dependencies, with the call of append_recursive that it makes.
unfoldable pub append_dependencies :
    (DefinitionIdentifier → SearchAction String)
    → MessageDefinitionFormat
    → List String
    → String
    → SearchAction String
append_dependencies append f [] result s = some (returned result, s)
append_dependencies append f (name ∷ names) result s =
    elim (contains (dependency f name) s.seen_deps) [
      | true ↦ append_dependencies append f names result s
      | false ↦
          add_text (append_dependencies append f names) result (dependency f name)
            (append (dependency f name) (record s { seen_deps = dependency f name ∷ s.seen_deps }))
    ]

-- What follows the load of the specification.
abbrev pub with_spec :
    (DefinitionIdentifier → SearchAction String)
    → MessageDefinitionFormat
    → List DefinitionIdentifier
    → Outcome MessageSpec × Cache
    → Option (Outcome String × Search)
with_spec append f seen (returned spec, cache) =
    append_dependencies append f spec.dependencies spec.spec_text
      (record { cache = cache; seen_deps = seen })
with_spec append f seen (thrown x, cache) =
    some (thrown x, record { cache = cache; seen_deps = seen })

module _ (load : DefinitionIdentifier → CacheAction MessageSpec) where
  unfoldable pub append_recursive : ℕ → DefinitionIdentifier → SearchAction String
  unfolding append_dependencies
  append_recursive zero id s = none
  append_recursive (suc fuel) id s =
      with_spec (append_recursive fuel) id.format s.seen_deps (load id s.cache)

abbrev pub FormatAndText : Type 0
FormatAndText = MessageDefinitionFormat × String

-- `catch (const DefinitionNotFoundError &)`
abbrev pub is_not_found : Exception → Bool
is_not_found (standard (definition_not_found what)) = true
is_not_found other = false

module _ (packages : Packages) (fuel : ℕ) where
  abbrev pub with_header :
      String → Option (Outcome String × Search) → Option (Outcome FormatAndText × Search)
  with_header name none = none
  with_header name (some (returned t, s)) =
      some (returned (idl, delimiter (dependency idl name) +++ t), s)
  with_header name (some (thrown x, s)) = some (thrown x, s)

  -- The handler of DefinitionNotFoundError, which goes on with the same `seen_deps`.
  unfoldable pub fall_back_to_idl : String → Search → Option (Outcome FormatAndText × Search)
  unfolding append_recursive
  fall_back_to_idl name s =
      with_header name (append_recursive (load_message_spec packages) fuel (dependency idl name) s)

  abbrev pub or_idl :
      String → Option (Outcome String × Search) → Option (Outcome FormatAndText × Search)
  or_idl name none = none
  or_idl name (some (returned t, s)) = some (returned (msg, t), s)
  or_idl name (some (thrown x, s)) =
      if is_not_found x then fall_back_to_idl name s else some (thrown x, s)

  unfoldable pub get_full_msg_text : String → Cache → Option (Outcome FormatAndText × Search)
  unfolding append_recursive fall_back_to_idl
  get_full_msg_text name cache = or_idl name (
      append_recursive (load_message_spec packages) fuel (dependency msg name)
        (record { cache = cache; seen_deps = [] }))

abbrev pub service_texts : String → String → Assoc String FormatAndText
service_texts request response =
    ("request", (srv_req, request)) ∷ ("response", (srv_resp, response)) ∷ []

-- The end of the second call, and the handler of DefinitionNotFoundError.
abbrev pub with_response :
    String
    → Option (Outcome String × Search)
    → Option (Outcome (Assoc String FormatAndText) × Search)
with_response request none = none
with_response request (some (returned t, s)) = some (returned (service_texts request t), s)
with_response request (some (thrown x, s)) =
    if is_not_found x then some (returned (service_texts request ""), s) else some (thrown x, s)

-- The end of the first call, and the same handler.
abbrev pub with_request :
    (Search → Option (Outcome String × Search))
    → Option (Outcome String × Search)
    → Option (Outcome (Assoc String FormatAndText) × Search)
with_request next none = none
with_request next (some (returned t, s)) = with_response t (next s)
with_request next (some (thrown x, s)) =
    if is_not_found x then some (returned (service_texts "" ""), s) else some (thrown x, s)

unfoldable pub get_full_srv_text :
    Packages → ℕ → String → Cache → Option (Outcome (Assoc String FormatAndText) × Search)
unfolding append_recursive
get_full_srv_text packages fuel name cache =
    let append = append_recursive (load_service_spec packages) fuel in
    with_request (append (dependency srv_resp name))
      (append (dependency srv_req name) (record { cache = cache; seen_deps = [] }))
