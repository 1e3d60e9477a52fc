-- ===== src/Base/Assoc.antt =====
-- `std::map` and `std::unordered_map` as association lists. The order of the list stands for the
-- container's order of iteration, which the source does not rely on.
pub mod Entries
pub mod Counting
pub mod Nested
use Prim.Native.Nat.{ℕ, ◌+◌}
use mathlib.Core.Path.{◌≡◌, refl, sym, ap, ◌∙◌}
use mathlib.Core.Logic.{inl, inr}
use mathlib.Core.Bool.{Bool, true, false, not, ◌&&◌, ◌||◌}
use mathlib.Core.Option.{Option, none, some}
use mathlib.Core.List.{List, [], ◌∷◌, ◌++◌}
use native.Mathlib.Omega.{arith}
use co_bridge.Base.Tests.{Eq, ◌==◌, ==_iff, if◌then◌else◌, Bool-cases}

abbrev pub Assoc : Type 0 → Type 0 → Type 0
Assoc K V = List (K × V)

abbrev pub update_all : {K V : Type 0} → (V → V) → Assoc K V → Assoc K V
update_all f [] = []
update_all f ((j, v) ∷ m) = (j, f v) ∷ update_all f m

abbrev pub is_some : {V : Type 0} → Option V → Bool
is_some none = false
is_some (some v) = true

-- How many values pass a test.
unfoldable pub count_if : {K V : Type 0} → (V → Bool) → Assoc K V → ℕ
count_if p [] = 0
count_if p ((j, v) ∷ m) = (if p v then 1 else 0) + count_if p m

-- Every entry satisfies a predicate on its key and its value.
abbrev pub Each {κ} : {K V : Type 0} → (K → V → Type κ) → Assoc K V → Type κ
Each P [] = Unit {κ}
Each P ((j, v) ∷ m) = P j v × Each P m

module _ {K V : Type 0} ⦃e : Eq K⦄ where
  -- `find(k)`, with `none` for `end()`
  unfoldable pub find : K → Assoc K V → Option V
  find k [] = none
  find k ((j, v) ∷ m) = if k == j then some v else find k m

  unfoldable pub has_key : K → Assoc K V → Bool
  has_key k [] = false
  has_key k ((j, v) ∷ m) = k == j || has_key k m

  -- `emplace(k, v)`: a key that is there keeps its value.
  unfoldable pub emplace : K → V → Assoc K V → Assoc K V
  unfolding has_key
  emplace k v m = if has_key k m then m else m ++ ((k, v) ∷ [])

  unfoldable pub erase : K → Assoc K V → Assoc K V
  erase k [] = []
  erase k ((j, v) ∷ m) = if k == j then erase k m else (j, v) ∷ erase k m

  -- Writing through the iterator or the reference that `find(k)` and `at(k)` give.
  unfoldable pub update : K → (V → V) → Assoc K V → Assoc K V
  update k f [] = []
  update k f ((j, v) ∷ m) = (if k == j then (j, f v) else (j, v)) ∷ update k f m

  -- No key stands twice, as in every C++ map.
  abbrev pub Distinct : Assoc K V → Type 0
  Distinct [] = Unit
  Distinct ((j, v) ∷ m) = (has_key j m ≡ false) × Distinct m

  pub has_key-find : (k : K) (m : Assoc K V) → has_key k m ≡ is_some (find k m)
  unfolding has_key find
  has_key-find k [] = refl
  has_key-find k ((j, v) ∷ m) = ground (arith, has_key-find k m)

  pub find-append :
      (k : K) (m n : Assoc K V)
      → find k (m ++ n) ≡ elim (find k m) [ none ↦ find k n | some v ↦ some v ]
  unfolding find
  find-append k [] n = refl
  find-append k ((j, v) ∷ m) n = ground (arith, find-append k m n)

  pub find-emplace :
      (j k : K) (v : V) (m : Assoc K V)
      → find j (emplace k v m) ≡ (if j == k && not (has_key k m) then some v else find j m)
  unfolding emplace
  find-emplace j k v m = elim (Bool-cases (has_key k m)) [
    | inl old ↦ rw old (ground arith)
    | inr new ↦
        rw (new, find-append j m ((k, v) ∷ []))
          (unfold find in ground (arith, ==_iff j k, has_key-find j m, new))
  ]

  pub find-erase :
      (j k : K) (m : Assoc K V) → find j (erase k m) ≡ (if j == k then none else find j m)
  unfolding find erase
  find-erase j k [] = ground arith
  find-erase j k ((i, v) ∷ m) = ground (arith, find-erase j k m, ==_iff j k, ==_iff j i, ==_iff k i)

  pub find-update :
      (j k : K) (f : V → V) (m : Assoc K V)
      → find j (update k f m)
        ≡ (if j == k then elim (find j m) [ none ↦ none | some v ↦ some (f v) ] else find j m)
  unfolding find update
  find-update j k f [] = ground arith
  find-update j k f ((i, v) ∷ m) =
      ground (arith, find-update j k f m, ==_iff j k, ==_iff j i, ==_iff k i)

  pub find-update_all :
      (j : K) (f : V → V) (m : Assoc K V)
      → find j (update_all f m) ≡ elim (find j m) [ none ↦ none | some v ↦ some (f v) ]
  unfolding find
  find-update_all j f [] = refl
  find-update_all j f ((i, v) ∷ m) = ground (arith, find-update_all j f m)

  pub has_key-append : (k : K) (m n : Assoc K V) → has_key k (m ++ n) ≡ (has_key k m || has_key k n)
  unfolding has_key
  has_key-append k [] n = refl
  has_key-append k ((j, v) ∷ m) n = ground (arith, has_key-append k m n)

  pub has_key-erase :
      (j k : K) (m : Assoc K V) → has_key j (erase k m) ≡ (not (j == k) && has_key j m)
  unfolding has_key erase
  has_key-erase j k [] = ground arith
  has_key-erase j k ((i, v) ∷ m) =
      ground (arith, has_key-erase j k m, ==_iff j k, ==_iff j i, ==_iff k i)

  pub has_key-update :
      (j k : K) (f : V → V) (m : Assoc K V) → has_key j (update k f m) ≡ has_key j m
  unfolding has_key update
  has_key-update j k f [] = refl
  has_key-update j k f ((i, v) ∷ m) = ground (arith, has_key-update j k f m)

  pub has_key-update_all :
      (j : K) (f : V → V) (m : Assoc K V) → has_key j (update_all f m) ≡ has_key j m
  unfolding has_key
  has_key-update_all j f [] = refl
  has_key-update_all j f ((i, v) ∷ m) = ground (arith, has_key-update_all j f m)

  pub has_key-emplace :
      (j k : K) (v : V) (m : Assoc K V) → has_key j (emplace k v m) ≡ (j == k || has_key j m)
  unfolding emplace
  has_key-emplace j k v m = elim (Bool-cases (has_key k m)) [
    | inl old ↦ rw old (ground (arith, ==_iff j k))
    | inr new ↦ rw (new, has_key-append j m ((k, v) ∷ [])) (unfold has_key in ground arith)
  ]

  -- What stands at a key stays there, whatever is emplaced.
  pub find-emplace_old :
      (j k : K) (v w : V) (m : Assoc K V) → find j m ≡ some v → find j (emplace k w m) ≡ some v
  find-emplace_old j k v w m h =
      let has : has_key j m ≡ true = has_key-find j m ∙ ap is_some h in
      rw (find-emplace j k w m) (elim (Bool-cases (j == k)) [
        | inl same ↦ rw (same, ap (λ i. has_key i m) (sym ((==_iff j k).0 same)) ∙ has) h
        | inr other ↦ rw other h
      ])
