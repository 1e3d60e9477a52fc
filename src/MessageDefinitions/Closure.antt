-- ===== src/MessageDefinitions/Closure.antt =====
-- append_recursive collects all that the definition depends on, in the cache and in its text.
use mathlib.Core.Path.{subst}
use co_bridge.Base.{
  ℕ, zero, suc, ◌≡◌, ◌≢◌, refl, inl, inr, String, List, [], ◌∷◌, Option, none, some, contains, All,
  Bool-cases,
}
use co_bridge.Base.Assoc.{find}
use co_bridge.Base.Action.{Outcome, returned, thrown}
use co_bridge.MessageDefinitions.Specs.{
  identifier_keys, MessageDefinitionFormat, msg, DefinitionIdentifier, MessageSpec, Packages,
}
use co_bridge.MessageDefinitions.Cache.{Cache, CacheAction, load_message_spec}
use co_bridge.MessageDefinitions.Loading.{load_message_spec-keeps, load_message_spec-stores}
use co_bridge.MessageDefinitions.FullText.{
  Search, SearchAction, dependency, add_text, append_dependencies, with_spec, append_recursive,
  get_full_msg_text, or_idl, with_header, is_not_found, fall_back_to_idl,
}
use co_bridge.MessageDefinitions.Specs.{delimiter}
use co_bridge.MessageDefinitions.Sections.{◌+++◌}
use co_bridge.MessageDefinitions.Parts.{
  StartsWith, StartsWith-refl, StartsWith-trans, StartsWith-append,
}
use co_bridge.MessageDefinitions.Collected.{
  Seen, IsTextOf, IsAppended, Collects, Collects-trans, Collects-refl, Collects-call,
}

module _ (load : DefinitionIdentifier → CacheAction MessageSpec)
    (keeps : (id k : DefinitionIdentifier) (spec : MessageSpec) (c : Cache)
      → find k c ≡ some spec
      → find k (load id c).1 ≡ some spec)
    (stores : (id : DefinitionIdentifier) (spec : MessageSpec) (c : Cache)
      → (load id c).0 ≡ returned spec
      → find id (load id c).1 ≡ some spec) where
  abbrev Closing : (DefinitionIdentifier → SearchAction String) → Type 0
  Closing append =
      (id : DefinitionIdentifier) (s t : Search) (r : String)
      → append id s ≡ some (returned r, t)
      → Collects s t r × IsTextOf t r id

  -- From `s` to `t`, the loop over the names goes on from one text to another.
  record Follows (f : MessageDefinitionFormat) (names : List String) (s t : Search)
      (result r : String) : Type 0 where
    collects : Collects s t r
    goes_on : StartsWith result r
    all_seen : All (λ d. Seen t.seen_deps (dependency f d)) names

  add_text-Follows :
      (append : DefinitionIdentifier → SearchAction String)
      → Closing append
      → (f : MessageDefinitionFormat) (names : List String) (next : String → SearchAction String)
        (result name : String) (o : Option (Outcome String × Search)) (s t : Search) (r : String)
      → append (dependency f name) (record s { seen_deps = dependency f name ∷ s.seen_deps }) ≡ o
      → add_text next result (dependency f name) o ≡ some (returned r, t)
      → ((u : Search) (n : String) → next n u ≡ some (returned r, t) → Follows f names u t n r)
      → Follows f (name ∷ names) s t result r
  add_text-Follows append h f names next result name none s t r call e rest = absurd (cc e)
  add_text-Follows append h f names next result name (some (returned n, u)) s t r call e rest =
      let dep = dependency f name in
      let longer : String = result +++ "\n" +++ delimiter dep +++ n in
      let c = h dep (record s { seen_deps = dep ∷ s.seen_deps }) u n call in
      let a = Collects-call s u dep result n c.0 c.1 in
      let b = rest u longer e in
      record {
        collects = Collects-trans s u t longer r a.0 b.collects b.goes_on;
        goes_on =
            StartsWith-trans result longer r
              (StartsWith-append result ("\n" +++ delimiter dep +++ n)) b.goes_on;
        all_seen = (b.collects.grows.sees dep a.1, b.all_seen);
      }
  add_text-Follows append h f names next result name (some (thrown x, u)) s t r call e rest =
      absurd (cc e)

  append_dependencies-Follows :
      (append : DefinitionIdentifier → SearchAction String)
      → Closing append
      → (f : MessageDefinitionFormat) (names : List String) (result : String) (s t : Search)
        (r : String)
      → append_dependencies append f names result s ≡ some (returned r, t)
      → Follows f names s t result r
  unfolding append_dependencies
  append_dependencies-Follows append h f [] result s t r e =
      let same_state : s ≡ t = cc e in
      let same_text : result ≡ r = cc e in
      record {
        collects = subst (λ u. Collects s u r) same_state (Collects-refl s r);
        goes_on = subst (StartsWith result) same_text (StartsWith-refl result);
        all_seen = tt;
      }
  append_dependencies-Follows append h f (name ∷ names) result s t r e =
      elim (Bool-cases (contains (dependency f name) s.seen_deps)) [
        | inl old ↦
            let rest =
              append_dependencies-Follows append h f names result s t r
                (rw (old, append_dependencies) at e) in
            record {
              collects = rest.collects;
              goes_on = rest.goes_on;
              all_seen = (rest.collects.grows.sees (dependency f name) old, rest.all_seen);
            }
        | inr new ↦
            add_text-Follows append h f names _ result name _ s t r refl
              (rw (new, append_dependencies) at e)
              (λ u n q. append_dependencies-Follows append h f names n u t r q)
      ]

  with_spec-Collects :
      (append : DefinitionIdentifier → SearchAction String)
      → Closing append
      → (id : DefinitionIdentifier) (s t : Search) (r : String) (o : Outcome MessageSpec)
      → (load id s.cache).0 ≡ o
      → with_spec append id.format s.seen_deps (o, (load id s.cache).1) ≡ some (returned r, t)
      → Collects s t r × IsTextOf t r id
  with_spec-Collects append h id s t r (returned spec) l e =
      let loaded : Search = record s { cache = (load id s.cache).1 } in
      let rest =
        append_dependencies-Follows append h id.format spec.dependencies spec.spec_text loaded t r
          e in
      (
        Collects-trans s loaded t spec.spec_text r
            (record {
              grows = record { caches = λ k other c. keeps id k other s.cache c; sees = λ d c. c };
              new = λ d c. inl c;
            })
            rest.collects rest.goes_on,
        record {
          done = record {
            spec = spec;
            cached = rest.collects.grows.caches id spec (stores id spec s.cache l);
            followed = rest.all_seen;
          };
          first = rest.goes_on;
        },
      )
  with_spec-Collects append h id s t r (thrown x) l e = absurd (cc e)

  append_recursive-Closing : (fuel : ℕ) → Closing (append_recursive load fuel)
  unfolding append_recursive
  append_recursive-Closing zero id s t r e = absurd (cc e)
  append_recursive-Closing (suc fuel) id s t r e =
      with_spec-Collects (append_recursive load fuel) (append_recursive-Closing fuel) id s t r
        (load id s.cache).0 refl e

-- Every definition that `s` has seen is done and stands in the text.
abbrev pub IsClosed : Search → String → Type 0
IsClosed s definition = (d : DefinitionIdentifier) → Seen s.seen_deps d → IsAppended s definition d

module _ (packages : Packages) (fuel : ℕ) where
  idl_text-ne-msg :
      (name definition : String) (o : Option (Outcome String × Search)) (s : Search)
      → with_header packages fuel name o ≢ some (returned (msg, definition), s)
  idl_text-ne-msg name definition none s h = cc
  idl_text-ne-msg name definition (some (returned t, u)) s h = cc
  idl_text-ne-msg name definition (some (thrown x, u)) s h = cc

  msg_text-first :
      (name definition : String) (o : Option (Outcome String × Search)) (s : Search)
      → or_idl packages fuel name o ≡ some (returned (msg, definition), s)
      → o ≡ some (returned definition, s)
  unfolding fall_back_to_idl
  msg_text-first name definition none s h = cc
  msg_text-first name definition (some (returned t, u)) s h = cc
  msg_text-first name definition (some (thrown x, u)) s h = elim (Bool-cases (is_not_found x)) [
    | inl b ↦ absurd (idl_text-ne-msg name definition _ s (rw (b, fall_back_to_idl) at h))
    | inr b ↦ absurd (cc (rw b at h))
  ]

-- If get_full_msg_text returns a text in the MSG format, then the text starts with that of the definition that was
-- asked for. Each name that this definition or one that was seen depends on was seen, and each one that was seen
-- stands in the text, its delimiter before its own text: the text is self-contained.
pub get_full_msg_text-IsClosed :
    (packages : Packages) (fuel : ℕ) (name : String) (cache : Cache) (definition : String)
    (s : Search)
    → get_full_msg_text packages fuel name cache ≡ some (returned (msg, definition), s)
    → IsTextOf s definition (dependency msg name) × IsClosed s definition
unfolding get_full_msg_text
get_full_msg_text-IsClosed packages fuel name cache definition s h =
    let c =
      append_recursive-Closing (load_message_spec packages)
        (λ id k spec d f. load_message_spec-keeps packages id k spec d f)
        (λ id spec d f. load_message_spec-stores packages id spec d f) fuel (dependency msg name)
        (record { cache = cache; seen_deps = [] }) s definition
        (msg_text-first packages fuel name definition _ s h) in
    (c.1, λ d k. elim (c.0.new d k) [ inl l ↦ absurd (unfold contains in cc l) | inr l ↦ l ])
