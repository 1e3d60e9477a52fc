-- ===== src/MessageDefinitions/Cache.antt =====
-- load_service_spec and load_message_spec of message_definition_cache.cpp.
use co_bridge.Base.{
  String, List, [], ◌∷◌, Bool, true, false, not, ◌&&◌, Option, none, some, ◌==◌, text_keys,
  if◌then◌else◌,
}
use co_bridge.Base.Assoc.{Assoc, find, emplace}
use co_bridge.Base.Errors.{What, text, standard, definition_not_found}
use co_bridge.Base.Action.{
  Outcome, returned, thrown, Action, throw, gets, lift, modify, ◌>>=◌, ◌>>◌, for_each,
}
use co_bridge.Base.Text.{split_string, newline}
use co_bridge.MessageDefinitions.Sections.{
  ◌+++◌, split_service_definition, split_action_msg_definition, remove_action_subtype,
}
use co_bridge.MessageDefinitions.Specs.{
  identifier_keys, MessageDefinitionFormat, msg, srv_req, DefinitionIdentifier, MessageSpec,
  Packages, same_format, extension_for_format, message_spec,
}

-- `msg_specs_by_definition_identifier_`
abbrev pub Cache : Type 0
Cache = Assoc DefinitionIdentifier MessageSpec

abbrev pub CacheAction : Type 0 → Type 0
CacheAction = Action Cache

abbrev pub or_throw : {A : Type 0} → Option A → What → Outcome A
or_throw none w = thrown (standard w)
or_throw (some a) w = returned a

-- What is in the cache is returned.
unfoldable pub from_cache : Option MessageSpec → CacheAction MessageSpec → CacheAction MessageSpec
from_cache (some spec) load cache = (returned spec, cache)
from_cache none load cache = load cache

-- What follows the match of the name.
unfoldable pub with_names :
    DefinitionIdentifier
    → Option (String × String × String)
    → (String × String × String → CacheAction MessageSpec)
    → CacheAction MessageSpec
with_names id none read cache = (
  thrown (standard (text ("Invalid package resource name: " +++ id.package_resource_name))),
  cache,
)
with_names id (some names) read cache = read names cache

-- What DefinitionNotFoundError says: of a package without an index, of a file that is not in the
-- index, of a path that cannot be read.
pub record NotFound : Type 0 where
  pub no_resource : String
  pub no_line : String → String
  pub no_file : String → String

abbrev pub name_only : DefinitionIdentifier → NotFound
name_only id = record {
  no_resource = id.package_resource_name;
  no_line = λ index. id.package_resource_name;
  no_file = λ path. id.package_resource_name;
}

unfoldable pub find_line : Packages → String → List String → Option String
find_line packages filename [] = none
find_line packages filename (l ∷ ls) =
    if packages.filename_of l == filename then some l else find_line packages filename ls

abbrev pub action_definitions : String → String → String → List (String × String)
action_definitions goal result feedback =
    ("_FeedbackMessage", "unique_identifier_msgs/UUID goal_id\n" +++ feedback)
    ∷ ("_GetResult_Request", "unique_identifier_msgs/UUID goal_id\n")
    ∷ ("_GetResult_Response", "int8 status\n" +++ result)
    ∷ ("_SendGoal_Request", "unique_identifier_msgs/UUID goal_id\n" +++ goal)
    ∷ ("_SendGoal_Response", "bool accepted\nbuiltin_interfaces/msg/Time stamp")
    ∷ []

abbrev pub is_empty_text : String → Bool
is_empty_text s = s == ""

module _ (packages : Packages) where
  -- From the share directory to the contents of the file.
  unfoldable pub read_definition : NotFound → String → String → CacheAction String
  unfolding find_line
  read_definition missing package_name filename = do
    share_dir ← lift (packages.share_directory package_name)
    index_contents ← lift (
        or_throw (packages.interfaces_index package_name)
          (definition_not_found missing.no_resource))
    line ← lift (
        or_throw (find_line packages filename (split_string index_contents newline))
          (definition_not_found (missing.no_line index_contents)))
    let full_path = share_dir +++ "/" +++ line
    lift
        (or_throw (packages.read_file full_path) (definition_not_found (missing.no_file full_path)))

  -- `emplace` and what is then at the key, where there always is something.
  unfoldable pub emplace_spec : DefinitionIdentifier → MessageSpec → CacheAction MessageSpec
  emplace_spec id spec = do
    modify (emplace id spec)
    kept ← gets (find id)
    lift (or_throw kept (definition_not_found id.package_resource_name))

  -- The half of a service that the format asks for.
  unfoldable pub service_part : MessageDefinitionFormat → String → Outcome String
  service_part f contents = elim (split_service_definition contents) [
    | returned p ↦ returned (if same_format f srv_req then p.0 else p.1)
    | thrown x ↦ thrown x
  ]

  unfoldable pub read_service_spec :
      DefinitionIdentifier → String × String × String → CacheAction MessageSpec
  unfolding read_definition emplace_spec service_part
  read_service_spec id (package_name, subfolder, type_name) =
      let is_service = subfolder == "srv" in
      let filename =
        if is_service then type_name +++ ".srv" else type_name +++ extension_for_format id.format in
      if not is_service && not (is_empty_text subfolder)
      then throw (standard (text ("Invalid subfolder: " +++ subfolder)))
      else (do
        contents ←
            read_definition
              (record {
                no_resource =
                    "get resource of 'rosidl_interfaces' failed: " +++ id.package_resource_name;
                no_line = λ index. "find " +++ filename +++ " in index_contents failed: " +++ index;
                no_file = λ path. "file " +++ path +++ " not found:" +++ id.package_resource_name;
              })
              package_name filename
        part ← lift (if is_service then service_part id.format contents else returned contents)
        emplace_spec id (message_spec packages id.format part package_name))

  unfoldable pub load_service_spec : DefinitionIdentifier → CacheAction MessageSpec
  unfolding read_service_spec from_cache with_names
  load_service_spec id cache =
      from_cache (find id cache)
        (with_names id (packages.match_type_name id.package_resource_name) (read_service_spec id))
        cache

  -- One round of the loop over the subtypes of an action.
  unfoldable pub emplace_action_spec :
      MessageDefinitionFormat → String → String → String × String → CacheAction Unit
  emplace_action_spec f package_name action_name (suffix, definition) = modify (
      emplace
        (record {
          format = f;
          package_resource_name = package_name +++ "/action/" +++ action_name +++ suffix;
        })
        (message_spec packages f definition package_name))

  unfoldable pub read_action_spec :
      DefinitionIdentifier → String → String → String → CacheAction MessageSpec
  unfolding emplace_action_spec
  read_action_spec id package_name action_name contents = do
    (goal, result, feedback) ← lift (split_action_msg_definition contents)
    for_each (action_definitions goal result feedback)
        (emplace_action_spec id.format package_name action_name)
    found ← gets (find id)
    lift (or_throw found (definition_not_found id.package_resource_name))

  -- What is done with the contents of the file; the flag tells an action.
  unfoldable pub store_contents :
      Bool → DefinitionIdentifier → String → String → String → CacheAction MessageSpec
  unfolding emplace_spec read_action_spec
  store_contents true id package_name action_name contents =
      if same_format id.format msg
      then read_action_spec id package_name action_name contents
      else throw (standard (definition_not_found id.package_resource_name))
  store_contents false id package_name action_name contents =
      emplace_spec id (message_spec packages id.format contents package_name)

  unfoldable pub read_message_spec :
      DefinitionIdentifier → String × String × String → CacheAction MessageSpec
  unfolding read_definition store_contents
  read_message_spec id (package_name, subfolder, type_name) =
      let is_action_type = subfolder == "action" in
      let action_name = if is_action_type then remove_action_subtype type_name else "" in
      let filename =
        if is_action_type
        then action_name +++ ".action"
        else type_name +++ extension_for_format id.format in
      read_definition (name_only id) package_name filename
      >>= store_contents is_action_type id package_name action_name

  unfoldable pub load_message_spec : DefinitionIdentifier → CacheAction MessageSpec
  unfolding read_message_spec from_cache with_names
  load_message_spec id cache =
      from_cache (find id cache)
        (with_names id (packages.match_type_name id.package_resource_name) (read_message_spec id))
        cache
