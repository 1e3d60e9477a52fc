-- ===== src/MessageDefinitions/Collected.antt =====
-- What append_recursive has collected when it returns a text: definitions that stand in the cache and in the text.
use mathlib.Core.Path.{subst}
use co_bridge.Base.{
  ◌≡◌, refl, sym, ◌⊎◌, inl, inr, String, List, ◌∷◌, true, some, ◌==◌, ==_iff, contains, All,
  All-map, Bool-cases, arith,
}
use co_bridge.Base.Assoc.{find}
use co_bridge.MessageDefinitions.Specs.{identifier_keys, DefinitionIdentifier, MessageSpec}
use co_bridge.MessageDefinitions.FullText.{Search, dependency}
use co_bridge.MessageDefinitions.Specs.{delimiter}
use co_bridge.MessageDefinitions.Sections.{◌+++◌}
use co_bridge.MessageDefinitions.Parts.{
  IsPart, StartsWith, IsPart-StartsWith, IsPart-prepend, IsPart-head,
}

abbrev pub Seen : List DefinitionIdentifier → DefinitionIdentifier → Type 0
Seen seen d = contains d seen ≡ true

-- The definition is in the cache, and all that it depends on is seen.
pub record IsDone (s : Search) (id : DefinitionIdentifier) : Type 0 where
  pub spec : MessageSpec
  pub cached : find id s.cache ≡ some spec
  pub followed : All (λ d. Seen s.seen_deps (dependency id.format d)) spec.dependencies

-- The same, and the text starts with the definition's own.
pub record IsTextOf (s : Search) (definition : String) (id : DefinitionIdentifier) : Type 0 where
  pub done : IsDone s id
  pub first : StartsWith done.spec.spec_text definition

-- The definition is done, and its text stands behind its delimiter in the text.
pub record IsAppended (s : Search) (definition : String) (id : DefinitionIdentifier) : Type 0 where
  pub done : IsDone s id
  pub shown : IsPart (delimiter id +++ done.spec.spec_text) definition

-- Nothing is lost from `s` to `t`.
pub record Grows (s t : Search) : Type 0 where
  pub caches :
      (k : DefinitionIdentifier) (spec : MessageSpec)
      → find k s.cache ≡ some spec
      → find k t.cache ≡ some spec
  pub sees : (d : DefinitionIdentifier) → Seen s.seen_deps d → Seen t.seen_deps d

IsDone-Grows : (s t : Search) (id : DefinitionIdentifier) → Grows s t → IsDone s id → IsDone t id
IsDone-Grows s t id g h = record {
  spec = h.spec;
  cached = g.caches id h.spec h.cached;
  followed =
      All-map (λ d. Seen s.seen_deps (dependency id.format d))
        (λ d. Seen t.seen_deps (dependency id.format d)) h.spec.dependencies
        (λ d k. g.sees (dependency id.format d) k) h.followed;
}

Grows-trans : (s t u : Search) → Grows s t → Grows t u → Grows s u
Grows-trans s t u a b = record {
  caches = λ k spec h. b.caches k spec (a.caches k spec h);
  sees = λ d h. b.sees d (a.sees d h);
}

-- From `s` to `t`, what is newly seen stands in the text.
pub record Collects (s t : Search) (r : String) : Type 0 where
  pub grows : Grows s t
  pub new : (d : DefinitionIdentifier) → Seen t.seen_deps d → Seen s.seen_deps d ⊎ IsAppended t r d

-- First from `s` to `t`, then on to `u` with a text that goes on.
pub Collects-trans :
    (s t u : Search) (q r : String)
    → Collects s t q
    → Collects t u r
    → StartsWith q r
    → Collects s u r
unfolding IsDone-Grows
Collects-trans s t u q r a b on = record {
  grows = Grows-trans s t u a.grows b.grows;
  new = λ d h. elim (b.new d h) [
    | inl k ↦ elim (a.new d k) [
      | inl l ↦ inl l
      | inr l ↦ inr (record {
        done = IsDone-Grows t u d b.grows l.done;
        shown = IsPart-StartsWith _ q r l.shown on;
      })
    ]
    | inr k ↦ inr k
  ];
}

pub Collects-refl : (s : Search) (r : String) → Collects s s r
Collects-refl s r = record {
  grows = record { caches = λ k spec h. h; sees = λ d h. h };
  new = λ d h. inl h;
}

-- A nested call that has returned a text: it is appended behind its delimiter.
pub Collects-call :
    (s t : Search) (d : DefinitionIdentifier) (result nested : String)
    → Collects (record s { seen_deps = d ∷ s.seen_deps }) t nested
    → IsTextOf t nested d
    → Collects s t (result +++ "\n" +++ delimiter d +++ nested) × Seen t.seen_deps d
unfolding contains
Collects-call s t d result nested c h = (
  record {
    grows = record { caches = c.grows.caches; sees = λ x k. c.grows.sees x (ground arith) };
    new = λ x k. elim (c.new x k) [
      | inl l ↦ elim (Bool-cases (x == d)) [
        | inl same ↦ inr (subst (IsAppended t whole) (sym ((==_iff x d).0 same)) own)
        | inr other ↦ inl (rw other at l)
      ]
      | inr l ↦ inr (record {
        done = l.done;
        shown = behind _ (IsPart-prepend _ (delimiter d) nested l.shown);
      })
    ];
  },
  c.grows.sees d (rw ((==_iff d d).1 refl) refl),
)
  where
    whole : String
    whole = result +++ "\n" +++ delimiter d +++ nested

    behind : (p : String) → IsPart p (delimiter d +++ nested) → IsPart p whole
    behind p k =
        IsPart-prepend p result ("\n" +++ delimiter d +++ nested)
          (IsPart-prepend p "\n" (delimiter d +++ nested) k)

    own : IsAppended t whole d
    own = record {
      done = h.done;
      shown = behind _ (IsPart-head (delimiter d) h.done.spec.spec_text nested h.first);
    }
