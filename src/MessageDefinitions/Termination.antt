-- ===== src/MessageDefinitions/Termination.antt =====
-- get_full_msg_text returns or throws: with more fuel than there are names, it does not run out.
use co_bridge.Base.{
  ℕ, ◌<◌, ◌≡◌, ◌≢◌, String, List, [], none, some, length, All, Bool-cases, inl, inr, arith,
}
use co_bridge.Base.Assoc.{Each}
use co_bridge.Base.Assoc.Entries.{Each-emplace, Each_find}
use co_bridge.Base.Action.{Outcome, returned, thrown}
use co_bridge.Base.Action.Yields.{Yields, OnReturn-map}
use co_bridge.MessageDefinitions.Sections.{split_action_msg_definition}
use co_bridge.MessageDefinitions.Specs.{
  identifier_keys, MessageDefinitionFormat, idl, msg, DefinitionIdentifier, Packages,
  parse_dependencies, message_spec,
}
use co_bridge.MessageDefinitions.Cache.{Cache, action_definitions, load_message_spec}
use co_bridge.MessageDefinitions.Loading.{IsFileOf, load_message_spec-Yields}
use co_bridge.MessageDefinitions.FullText.{
  Search, dependency, append_recursive, fall_back_to_idl, get_full_msg_text, or_idl, with_header,
  is_not_found,
}
use co_bridge.MessageDefinitions.Enough.{Known, unseen-le, Ends, append_recursive-Ends}

-- `names` holds all that the definitions in the files of the packages depend on.
pub record Covers (packages : Packages) (names : List String) : Type 0 where
  pub whole :
      (package_name contents : String)
      → IsFileOf packages package_name contents
      → (f : MessageDefinitionFormat)
      → All (Known names) (parse_dependencies packages f contents package_name)
  pub parts :
      (package_name contents goal result feedback : String)
      → IsFileOf packages package_name contents
      → split_action_msg_definition contents ≡ returned (goal, result, feedback)
      → (f : MessageDefinitionFormat)
      → All
          (λ (p : String × String).
            All (Known names) (parse_dependencies packages f p.1 package_name))
          (action_definitions goal result feedback)

abbrev pub IsCovered : List String → Cache → Type 0
IsCovered names c = Each (λ id spec. All (Known names) spec.dependencies) c

load-covered :
    (packages : Packages) (names : List String)
    → Covers packages names
    → (id : DefinitionIdentifier)
    → Yields
        (IsCovered names)
        (λ _ spec. All (Known names) spec.dependencies)
        (load_message_spec packages id)
unfolding message_spec
load-covered packages names h id = record {
  at = λ c p.
      let y =
        (load_message_spec-Yields packages (IsCovered names)
            (λ spec. All (Known names) spec.dependencies)
            (λ j spec d g k. Each-emplace (λ i s. All (Known names) s.dependencies) j spec d k g)
            h.whole h.parts id).at
          c p in
      (y.0, OnReturn-map _ _ _ (λ s e. Each_find _ id s _ y.0 e) y.1);
}

module _ (packages : Packages) (names : List String) (covers : Covers packages names) (fuel : ℕ)
    (enough : length names < fuel) where
  append-Ends :
      (f : MessageDefinitionFormat) (name : String) (s : Search)
      → IsCovered names s.cache
      → Ends
          (load_message_spec packages)
          f
          names
          (IsCovered names)
          (λ n. load-covered packages names covers (dependency f n))
          s.seen_deps
          (append_recursive (load_message_spec packages) fuel (dependency f name) s)
  append-Ends f name s g =
      append_recursive-Ends (load_message_spec packages) f names (IsCovered names)
        (λ n. load-covered packages names covers (dependency f n)) fuel name s g
        (omega (arith, unseen-le f names s.seen_deps))

  with_header-ends :
      (name : String) (r : Outcome String × Search) → with_header packages fuel name (some r) ≢ none
  with_header-ends name (returned t, s) h = cc
  with_header-ends name (thrown x, s) h = cc

  fall_back_to_idl-ends :
      (name : String) (s : Search)
      → IsCovered names s.cache
      → fall_back_to_idl packages fuel name s ≢ none
  unfolding fall_back_to_idl
  fall_back_to_idl-ends name s g =
      let e = append-Ends idl name s g in rw e.ended (with_header-ends name e.result)

  or_idl-ends :
      (name : String) (r : Outcome String × Search)
      → IsCovered names r.1.cache
      → or_idl packages fuel name (some r) ≢ none
  or_idl-ends name (returned t, s) g = λ h. cc
  or_idl-ends name (thrown x, s) g = elim (Bool-cases (is_not_found x)) [
    | inl b ↦ rw b (fall_back_to_idl-ends name s g)
    | inr b ↦ rw b (λ h. cc)
  ]

-- If the names cover all that the definitions in the packages' files depend on, and all that the cached
-- specifications depend on, fuel above their number is enough: get_full_msg_text returns or throws.
pub get_full_msg_text-ends :
    (packages : Packages) (names : List String)
    → Covers packages names
    → (fuel : ℕ) → length names < fuel
    → (name : String) (cache : Cache) → IsCovered names cache
    → get_full_msg_text packages fuel name cache ≢ none
unfolding get_full_msg_text
get_full_msg_text-ends packages names covers fuel enough name cache g =
    let e =
      append-Ends packages names covers fuel enough msg name
        (record { cache = cache; seen_deps = [] }) g in
    rw e.ended (or_idl-ends packages names covers fuel enough name e.result e.good)
