-- ===== src/Tests/Definitions.antt =====
-- Two message definitions, A and B, of which both depend on B.
use co_bridge.Base.{
  ◌≡◌, ◌≢◌, refl, String, List, [], ◌∷◌, none, some, if◌then◌else◌, ◌==◌, text_keys, All, contains,
  arith,
}
use co_bridge.Base.Action.{returned, ◌>>=◌}
use co_bridge.MessageDefinitions.Sections.{split_service_definition}
use co_bridge.MessageDefinitions.Specs.{
  MessageDefinitionFormat, idl, msg, srv_req, srv_resp, MessageSpec, Packages, parse_dependencies,
  message_spec,
}
use co_bridge.MessageDefinitions.Cache.{load_message_spec}
use co_bridge.MessageDefinitions.FullText.{Search, dependency, get_full_msg_text}
use co_bridge.Base.Text.{has_code, pieces, begins_with, size}
use co_bridge.Base.Assoc.{find, emplace}
use co_bridge.MessageDefinitions.Enough.{Known}
use co_bridge.MessageDefinitions.Termination.{Covers, get_full_msg_text-ends}
use co_bridge.MessageDefinitions.Collected.{IsTextOf}
use co_bridge.MessageDefinitions.Closure.{IsClosed, get_full_msg_text-IsClosed}
use co_bridge.MessageDefinitions.Halves.{unlines, service_text, split_service_definition-join}

abbrev pub packages : Packages
packages = record {
  match_type_name = λ n.
      if n == "p/A" then some ("p", "", "A") else if n == "p/B" then some ("p", "", "B") else none;
  field_types = λ t. "p/B" ∷ "int8" ∷ [];
  included_files = λ t. [];
  share_directory = λ p. returned "/share";
  interfaces_index = λ p. some "msg/A.msg\nmsg/B.msg";
  filename_of = λ l. if l == "msg/A.msg" then "A.msg" else if l == "msg/B.msg" then "B.msg" else l;
  read_file = λ f.
      if f == "/share/msg/A.msg"
      then some "p/B b\nint8 x"
      else if f == "/share/msg/B.msg"
      then some "p/B[] bs\nint8 y"
      else none;
}

abbrev names : List String
names = "p/B" ∷ []

dependencies_known :
    (f : MessageDefinitionFormat) (definition package_name : String)
    → All (Known names) (parse_dependencies packages f definition package_name)
unfolding parse_dependencies contains
dependencies_known idl definition package_name = tt
dependencies_known msg definition package_name = (refl, tt)
dependencies_known srv_req definition package_name = (refl, tt)
dependencies_known srv_resp definition package_name = (refl, tt)

names-Covers : Covers packages names
names-Covers = record {
  whole = λ p c h f. dependencies_known f c p;
  parts = λ p c g r fb h e f. (
    dependencies_known f _ p,
    (
      dependencies_known f _ p,
      (dependencies_known f _ p, (dependencies_known f _ p, (dependencies_known f _ p, tt))),
    ),
  );
}

get_full_msg_text-ends_example : get_full_msg_text packages 2 "p/A" [] ≢ none
get_full_msg_text-ends_example =
    get_full_msg_text-ends packages names names-Covers 2 (omega arith) "p/A" [] tt

abbrev a_text : String
a_text =
    "p/B b\nint8 x\n================================================================================\nMSG: p/B\np/B[] bs\nint8 y"

abbrev spec_a : MessageSpec
spec_a = record { dependencies = "p/B" ∷ []; spec_text = "p/B b\nint8 x"; format = msg }

abbrev spec_b : MessageSpec
spec_b = record { dependencies = "p/B" ∷ []; spec_text = "p/B[] bs\nint8 y"; format = msg }

abbrev searched : Search
searched = record {
  cache = (dependency msg "p/A", spec_a) ∷ (dependency msg "p/B", spec_b) ∷ [];
  seen_deps = dependency msg "p/B" ∷ [];
}

get_full_msg_text-IsClosed_example :
    IsTextOf searched a_text (dependency msg "p/A") × IsClosed searched a_text
unfolding get_full_msg_text load_message_spec find emplace ◌>>=◌ pieces begins_with size
    message_spec
get_full_msg_text-IsClosed_example =
    get_full_msg_text-IsClosed packages 2 "p/A" [] a_text searched refl

split_service_definition-join_example :
    split_service_definition (service_text ("int8 a" ∷ []) ("int8 b" ∷ []))
    ≡ returned (unlines ("int8 a" ∷ []), unlines ("int8 b" ∷ []))
unfolding has_code
split_service_definition-join_example =
    split_service_definition-join ("int8 a" ∷ []) ("int8 b" ∷ [])
      (record { unbroken = refl; no_return = refl; other = refl }, tt)
      (record { unbroken = refl; no_return = refl; other = refl }, tt)
