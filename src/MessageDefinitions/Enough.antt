-- ===== src/MessageDefinitions/Enough.antt =====
-- How deep append_recursive goes: each nested call has put one more identifier into `seen_deps`, so
-- one call more than there are names is enough.
use mathlib.Core.Path.{subst}
use co_bridge.Base.{
  ℕ, zero, suc, ◌+◌, ◌≤◌, ◌<◌, ◌≡◌, refl, sym, ap, ◌∙◌, String, List, [], ◌∷◌, true, false, Option,
  none, some, ◌==◌, ==_iff, text_keys, contains, length, All, Bool-cases, inl, inr, arith,
  if◌then◌else◌,
}
use co_bridge.Base.Action.{Outcome, returned, thrown}
use co_bridge.Base.Action.Yields.{Yields, OnReturn}
use co_bridge.MessageDefinitions.Specs.{
  identifier_keys, MessageDefinitionFormat, DefinitionIdentifier, MessageSpec,
}
use co_bridge.MessageDefinitions.Cache.{Cache, CacheAction}
use co_bridge.MessageDefinitions.FullText.{
  Search, SearchAction, dependency, add_text, append_dependencies, with_spec, append_recursive,
}

-- How many of the names are not seen yet.
pub unseen : MessageDefinitionFormat → List String → List DefinitionIdentifier → ℕ
unseen f [] seen = 0
unseen f (u ∷ us) seen = (if contains (dependency f u) seen then 0 else 1) + unseen f us seen

abbrev pub Known : List String → String → Type 0
Known names u = contains u names ≡ true

pub unseen-le :
    (f : MessageDefinitionFormat) (us : List String) (seen : List DefinitionIdentifier)
    → unseen f us seen ≤ length us
unfolding unseen
unseen-le f [] seen = omega arith
unseen-le f (u ∷ us) seen = ground (arith, unseen-le f us seen)

unseen-cons-le :
    (f : MessageDefinitionFormat) (us : List String) (d : DefinitionIdentifier)
    (seen : List DefinitionIdentifier)
    → unseen f us (d ∷ seen) ≤ unseen f us seen
unfolding unseen contains
unseen-cons-le f [] d seen = omega arith
unseen-cons-le f (u ∷ us) d seen = ground (arith, unseen-cons-le f us d seen)

unseen-cons-lt :
    (f : MessageDefinitionFormat) (us : List String) (u : String) (seen : List DefinitionIdentifier)
    → Known us u
    → contains (dependency f u) seen ≡ false
    → unseen f us (dependency f u ∷ seen) < unseen f us seen
unfolding unseen contains
unseen-cons-lt f [] u seen k h = cc
unseen-cons-lt f (v ∷ us) u seen k h = elim (Bool-cases (u == v)) [
  | inl same ↦
      let e : v ≡ u = sym ((==_iff u v).0 same) in
      let new : contains (dependency f v) seen ≡ false =
        ap (λ w. contains (dependency f w) seen) e ∙ h in
      let hit : (dependency f v == dependency f u) ≡ true =
        (==_iff (dependency f v) (dependency f u)).1 (ap (dependency f) e) in
      rw (new, hit) (ground (arith, unseen-cons-le f us (dependency f u) seen))
  | inr other ↦
      let known : Known us u = rw other at k in ground (arith, unseen-cons-lt f us u seen known h)
]

module _ (load : DefinitionIdentifier → CacheAction MessageSpec) (f : MessageDefinitionFormat)
    (names : List String) (Good : Cache → Type 0)
    (loads : (name : String)
      → Yields Good
          (λ _ spec. All (Known names) spec.dependencies)
          (load (dependency f name))) where
  -- A search that ends, in a good cache and with no fewer identifiers seen.
  pub record Ends (seen : List DefinitionIdentifier) (o : Option (Outcome String × Search))
      : Type 0 where
    pub result : Outcome String × Search
    pub ended : o ≡ some result
    pub good : Good result.1.cache
    pub further : unseen f names result.1.seen_deps ≤ unseen f names seen

  Ends-le :
      (a b : List DefinitionIdentifier) (o : Option (Outcome String × Search))
      → Ends a o
      → unseen f names a ≤ unseen f names b
      → Ends b o
  Ends-le a b o e h = record {
    result = e.result;
    ended = e.ended;
    good = e.good;
    further = omega (arith, e.further);
  }

  abbrev EndsBelow : ℕ → (DefinitionIdentifier → SearchAction String) → Type 0
  EndsBelow fuel append =
      (name : String) (s : Search)
      → Good s.cache
      → unseen f names s.seen_deps < fuel
      → Ends s.seen_deps (append (dependency f name) s)

  -- After the nested call, with `next` for the rest of the loop.
  add_text-Ends :
      (seen : List DefinitionIdentifier) (next : String → SearchAction String) (result : String)
      (dep : DefinitionIdentifier) (o : Option (Outcome String × Search))
      → Ends seen o
      → ((r : String) (s : Search)
          → Good s.cache
          → unseen f names s.seen_deps ≤ unseen f names seen
          → Ends s.seen_deps (next r s))
      → Ends seen (add_text next result dep o)
  add_text-Ends seen next result dep none h after = absurd (cc h.ended)
  add_text-Ends seen next result dep (some (returned nested, s)) h after =
      let e : h.result ≡ (returned nested, s) = cc h.ended in
      let g : Good s.cache = subst (λ r. Good r.1.cache) e h.good in
      let m : unseen f names s.seen_deps ≤ unseen f names seen =
        subst (λ r. unseen f names r.1.seen_deps ≤ unseen f names seen) e h.further in
      Ends-le s.seen_deps seen _ (after _ s g m) m
  add_text-Ends seen next result dep (some (thrown x, s)) h after = h

  append_dependencies-Ends :
      (fuel : ℕ) (append : DefinitionIdentifier → SearchAction String)
      → EndsBelow fuel append
      → (deps : List String) (result : String) (s : Search) → All (Known names) deps
      → Good s.cache
      → unseen f names s.seen_deps ≤ fuel
      → Ends s.seen_deps (append_dependencies append f deps result s)
  unfolding append_dependencies
  append_dependencies-Ends fuel append ends [] result s k g h = record {
    result = (returned result, s);
    ended = refl;
    good = g;
    further = omega arith;
  }
  append_dependencies-Ends fuel append ends (name ∷ deps) result s k g h =
      elim (Bool-cases (contains (dependency f name) s.seen_deps)) [
        | inl old ↦
            rw (old, append_dependencies)
              (append_dependencies-Ends fuel append ends deps result s k.1 g h)
        | inr new ↦
            let less = unseen-cons-lt f names name s.seen_deps k.0 new in
            let called =
              Ends-le _ s.seen_deps _
                (ends name (record s { seen_deps = dependency f name ∷ s.seen_deps }) g
                  (omega arith))
                (unseen-cons-le f names (dependency f name) s.seen_deps) in
            rw (new, append_dependencies)
              (add_text-Ends s.seen_deps _ result (dependency f name) _ called (λ r t g' m.
                append_dependencies-Ends fuel append ends deps r t k.1 g' (omega arith)))
      ]

  with_spec-Ends :
      (fuel : ℕ) (append : DefinitionIdentifier → SearchAction String)
      → EndsBelow fuel append
      → (seen : List DefinitionIdentifier) (o : Outcome MessageSpec) (c : Cache) → Good c
      → OnReturn (λ spec. All (Known names) spec.dependencies) o
      → unseen f names seen ≤ fuel
      → Ends seen (with_spec append f seen (o, c))
  with_spec-Ends fuel append ends seen (returned spec) c g k h =
      append_dependencies-Ends fuel append ends spec.dependencies spec.spec_text _ k g h
  with_spec-Ends fuel append ends seen (thrown x) c g k h = record {
    result = (thrown x, record { cache = c; seen_deps = seen });
    ended = refl;
    good = g;
    further = omega arith;
  }

  pub append_recursive-Ends :
      (fuel : ℕ) (name : String) (s : Search)
      → Good s.cache
      → unseen f names s.seen_deps < fuel
      → Ends s.seen_deps (append_recursive load fuel (dependency f name) s)
  unfolding append_recursive
  append_recursive-Ends zero name s g h = elim h [ ]
  append_recursive-Ends (suc fuel) name s g h =
      let loaded = (loads name).at s.cache g in
      with_spec-Ends fuel (append_recursive load fuel) (append_recursive-Ends fuel) s.seen_deps
        (load (dependency f name) s.cache).0 (load (dependency f name) s.cache).1 loaded.0 loaded.1
        (omega arith)
