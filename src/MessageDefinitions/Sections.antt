-- ===== src/MessageDefinitions/Sections.antt =====
-- The sections of service and action definitions: split_service_definition,
-- split_action_msg_definition and remove_action_subtype of message_definition_cache.cpp.
use Prim.Native.Char.{code}
use Prim.Native.String.{◌++◌ as append}
use co_bridge.Base.{
  ◌-◌, String, List, [], ◌∷◌, Bool, true, false, not, ◌&&◌, leb, nat_eq, ◌==◌, text_keys, ◌≡◌, refl,
  if◌then◌else◌,
}
use co_bridge.Base.Errors.{standard, text}
use co_bridge.Base.Action.{Outcome, returned, thrown}
use co_bridge.Base.Text.{begins_with, size, drop_chars, take_chars, split_string, pieces, newline}

infixr 65 ◌+++◌
abbrev pub ◌+++◌ : String → String → String
s +++ t = append s t

-- The loop that replaces "\r\n" by "\n".
unfoldable pub replace_crlf : String → String
unfolding begins_with
replace_crlf String.[] = ""
replace_crlf (String.◌∷◌ c s) =
    let rest = replace_crlf s in
    if nat_eq (code c) 13 && begins_with newline s then rest else String.◌∷◌ c rest

-- The loop that replaces each "\r" that is left.
unfoldable pub replace_cr : String → String
replace_cr String.[] = ""
replace_cr (String.◌∷◌ c s) =
    let rest = replace_cr s in if nat_eq (code c) 13 then newline +++ rest else String.◌∷◌ c rest

abbrev pub separator : String
separator = "---"

-- The loop over the lines, with its flag and the two texts.
unfoldable pub collect_sections : Bool → List String → String × String → String × String
collect_sections is_request [] r = r
collect_sections is_request (l ∷ ls) (request, response) =
    let after = collect_sections false ls (request, response) in
    let in_request = collect_sections true ls (request +++ l +++ newline, response) in
    let in_response = collect_sections false ls (request, response +++ l +++ newline) in
    if l == separator then after else if is_request then in_request else in_response

abbrev pub is_single_other : List String → Bool
is_single_other [] = false
is_single_other (l ∷ []) = not (l == separator)
is_single_other (l ∷ m ∷ ls) = false

-- What is made of the lines.
unfoldable pub sections_of : String → List String → Outcome (String × String)
unfolding collect_sections
sections_of service_definition definitions =
    if is_single_other definitions
    then thrown (standard (text ("Invalid service definition:\n" +++ service_definition)))
    else returned (collect_sections true definitions ("", ""))

unfoldable pub split_service_definition : String → Outcome (String × String)
unfolding replace_crlf replace_cr sections_of pieces begins_with size
split_service_definition service_definition =
    sections_of service_definition
      (split_string (replace_cr (replace_crlf service_definition)) newline)

abbrev pub action_separator : String
action_separator = "\n---\n"

-- Goal, result and feedback, if there are three sections.
abbrev pub three_sections : String → List String → Outcome (String × String × String)
three_sections whole (a ∷ b ∷ c ∷ []) = returned (a, b, c)
three_sections whole other = thrown (standard (text ("Invalid action definition:\n" +++ whole)))

unfoldable pub split_action_msg_definition : String → Outcome (String × String × String)
unfolding pieces begins_with size
split_action_msg_definition action_definition =
    three_sections action_definition (split_string action_definition action_separator)

unfoldable pub ends_with : String → String → Bool
unfolding size drop_chars
ends_with str suffix =
    leb (size suffix) (size str) && drop_chars (size str - size suffix) str == suffix

abbrev pub action_subtype_suffixes : List String
action_subtype_suffixes =
    "_FeedbackMessage" ∷ "_GetResult_Request" ∷ "_GetResult_Response" ∷ "_SendGoal_Request"
    ∷ "_SendGoal_Response" ∷ []

unfoldable pub remove_suffix : List String → String → String
unfolding ends_with take_chars size
remove_suffix [] action_type = action_type
remove_suffix (suffix ∷ others) action_type =
    if ends_with action_type suffix
    then take_chars (size action_type - size suffix) action_type
    else remove_suffix others action_type

unfoldable pub remove_action_subtype : String → String
unfolding remove_suffix
remove_action_subtype action_type = remove_suffix action_subtype_suffixes action_type

fibonacci : remove_action_subtype "Fibonacci_SendGoal_Request" ≡ "Fibonacci"
unfolding remove_action_subtype
fibonacci = refl

add_two_ints :
    split_service_definition "int64 a\r\nint64 b\n---\nint64 sum"
    ≡ returned ("int64 a\nint64 b\n", "int64 sum\n")
unfolding split_service_definition
add_two_ints = refl
