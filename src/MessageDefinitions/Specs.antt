-- ===== src/MessageDefinitions/Specs.antt =====
-- Identifiers and specifications of definitions, and the names that a definition depends on:
-- parse_dependencies, extension_for_format, delimiter and the constructor of MessageSpec. What is read
-- from the packages, and the matches of the regular expressions, is a parameter.
use co_bridge.Base.{
  String, List, [], ◌∷◌, Bool, true, false, ◌&&◌, Option, ◌==◌, ==_iff, Eq, text_keys, contains,
  if◌then◌else◌, ◌≡◌, refl, ◌↔◌, arith,
}
use co_bridge.Base.Action.{Outcome}
use co_bridge.Base.Text.{has_code, insert_sorted}
use co_bridge.MessageDefinitions.Sections.{◌+++◌}

pub data MessageDefinitionFormat : Type 0 where
  idl msg srv_req srv_resp : MessageDefinitionFormat

pub record DefinitionIdentifier : Type 0 where
  pub format : MessageDefinitionFormat
  pub package_resource_name : String

pub record MessageSpec : Type 0 where
  pub dependencies : List String
  pub spec_text : String
  pub format : MessageDefinitionFormat

-- What is read from outside the program.
pub record Packages : Type 0 where
  -- `std::regex_match(name, PACKAGE_TYPENAME_REGEX)`: package, subfolder and type name
  pub match_type_name : String → Option (String × String × String)
  -- the first group of each match of MSG_FIELD_TYPE_REGEX and of IDL_FIELD_TYPE_REGEX
  pub field_types : String → List String
  pub included_files : String → List String
  -- get_package_share_directory, which throws for a package that is not there
  pub share_directory : String → Outcome String
  -- get_resource("rosidl_interfaces", package)
  pub interfaces_index : String → Option String
  -- `std::filesystem::path(line).filename()`
  pub filename_of : String → String
  -- what an std::ifstream that is good reads
  pub read_file : String → Option String

abbrev pub same_format : MessageDefinitionFormat → MessageDefinitionFormat → Bool
same_format idl idl = true
same_format msg msg = true
same_format srv_req srv_req = true
same_format srv_resp srv_resp = true
same_format f g = false

same_format_iff : (f g : MessageDefinitionFormat) → (same_format f g ≡ true) ↔ (f ≡ g)
same_format_iff idl idl = (λ _. refl, λ _. refl)
same_format_iff idl msg = (λ h. cc, λ h. cc)
same_format_iff idl srv_req = (λ h. cc, λ h. cc)
same_format_iff idl srv_resp = (λ h. cc, λ h. cc)
same_format_iff msg idl = (λ h. cc, λ h. cc)
same_format_iff msg msg = (λ _. refl, λ _. refl)
same_format_iff msg srv_req = (λ h. cc, λ h. cc)
same_format_iff msg srv_resp = (λ h. cc, λ h. cc)
same_format_iff srv_req idl = (λ h. cc, λ h. cc)
same_format_iff srv_req msg = (λ h. cc, λ h. cc)
same_format_iff srv_req srv_req = (λ _. refl, λ _. refl)
same_format_iff srv_req srv_resp = (λ h. cc, λ h. cc)
same_format_iff srv_resp idl = (λ h. cc, λ h. cc)
same_format_iff srv_resp msg = (λ h. cc, λ h. cc)
same_format_iff srv_resp srv_req = (λ h. cc, λ h. cc)
same_format_iff srv_resp srv_resp = (λ _. refl, λ _. refl)

-- `DefinitionIdentifier::operator==`
abbrev pub same_identifier : DefinitionIdentifier → DefinitionIdentifier → Bool
same_identifier a b =
    same_format a.format b.format && a.package_resource_name == b.package_resource_name

pub same_identifier_iff : (a b : DefinitionIdentifier) → (same_identifier a b ≡ true) ↔ (a ≡ b)
same_identifier_iff a b = ground (
  arith,
  same_format_iff a.format b.format,
  ==_iff a.package_resource_name b.package_resource_name,
)

instance abbrev pub identifier_keys : Eq DefinitionIdentifier
identifier_keys = record { beq = same_identifier; beq_iff = same_identifier_iff }

abbrev pub primitive_types : List String
primitive_types =
    "bool" ∷ "byte" ∷ "char" ∷ "float32" ∷ "float64" ∷ "int8" ∷ "uint8" ∷ "int16" ∷ "uint16"
    ∷ "int32" ∷ "uint32" ∷ "int64" ∷ "uint64" ∷ "string" ∷ []

abbrev pub qualified : String → String → String
qualified package_context t = if has_code b'/' t then t else package_context +++ "/" +++ t

-- The loop over the field types.
unfoldable pub insert_field_types : String → List String → List String → List String
unfolding insert_sorted has_code contains
insert_field_types package_context [] dependencies = dependencies
insert_field_types package_context (t ∷ ts) dependencies = insert_field_types package_context ts (
    if contains t primitive_types
    then dependencies
    else insert_sorted (qualified package_context t) dependencies)

unfoldable pub insert_all_sorted : List String → List String → List String
unfolding insert_sorted
insert_all_sorted [] dependencies = dependencies
insert_all_sorted (t ∷ ts) dependencies = insert_all_sorted ts (insert_sorted t dependencies)

abbrev pub extension_for_format : MessageDefinitionFormat → String
extension_for_format idl = ".idl"
extension_for_format msg = ".msg"
extension_for_format srv_req = ".msg"
extension_for_format srv_resp = ".msg"

abbrev pub format_label : MessageDefinitionFormat → String
format_label idl = "IDL: "
format_label msg = "MSG: "
format_label srv_req = "MSG: "
format_label srv_resp = "MSG: "

abbrev pub delimiter : DefinitionIdentifier → String
delimiter id =
    "================================================================================\n"
    +++ format_label id.format
    +++ id.package_resource_name
    +++ "\n"

module _ (packages : Packages) where
  unfoldable pub parse_msg_dependencies : String → String → List String
  unfolding insert_field_types
  parse_msg_dependencies definition package_context =
      insert_field_types package_context (packages.field_types definition) []

  unfoldable pub parse_idl_dependencies : String → List String
  unfolding insert_all_sorted
  parse_idl_dependencies definition = insert_all_sorted (packages.included_files definition) []

  unfoldable pub parse_dependencies : MessageDefinitionFormat → String → String → List String
  unfolding parse_msg_dependencies parse_idl_dependencies
  parse_dependencies idl definition package_context = parse_idl_dependencies definition
  parse_dependencies msg definition package_context =
      parse_msg_dependencies definition package_context
  parse_dependencies srv_req definition package_context =
      parse_msg_dependencies definition package_context
  parse_dependencies srv_resp definition package_context =
      parse_msg_dependencies definition package_context

  -- The constructor of MessageSpec.
  unfoldable pub message_spec : MessageDefinitionFormat → String → String → MessageSpec
  unfolding parse_dependencies
  message_spec f definition package_context = record {
    dependencies = parse_dependencies f definition package_context;
    spec_text = definition;
    format = f;
  }
