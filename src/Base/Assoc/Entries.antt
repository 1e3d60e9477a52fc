-- ===== src/Base/Assoc/Entries.antt =====
-- Predicates on all entries of a map, and distinct keys, through each way to change a map.
use mathlib.Core.Path.{◌≡◌, refl, sym, subst, subst₂}
use mathlib.Core.Logic.{inl, inr}
use mathlib.Core.Bool.{false}
use mathlib.Core.Option.{some}
use mathlib.Core.List.{[], ◌∷◌, ◌++◌}
use native.Mathlib.Omega.{arith}
use co_bridge.Base.Tests.{Eq, ◌==◌, ==_iff, Bool-cases}
use co_bridge.Base.Assoc.{
  Assoc, Each, Distinct, update_all, find, has_key, emplace, erase, update, has_key-append,
  has_key-erase, has_key-update, has_key-update_all,
}

module _ {κ} {K V : Type 0} ⦃e : Eq K⦄ (P : K → V → Type κ) where
  pub Each_find : (k : K) (v : V) (m : Assoc K V) → Each P m → find k m ≡ some v → P k v
  unfolding find
  Each_find k v [] h f = cc
  Each_find k v ((j, w) ∷ m) h f = elim (Bool-cases (k == j)) [
    | inl same ↦
        let f' : some w ≡ some v = rw same at f in
        let w_is_v : w ≡ v = cc f' in subst₂ P (sym ((==_iff k j).0 same)) w_is_v h.0
    | inr other ↦ Each_find k v m h.1 (rw other at f)
  ]

  pub Each-append : (m n : Assoc K V) → Each P m → Each P n → Each P (m ++ n)
  Each-append [] n h i = i
  Each-append (x ∷ m) n h i = (h.0, Each-append m n h.1 i)

  pub Each-emplace : (k : K) (v : V) (m : Assoc K V) → Each P m → P k v → Each P (emplace k v m)
  unfolding emplace
  Each-emplace k v m h p = elim (Bool-cases (has_key k m)) [
    | inl old ↦ rw old h
    | inr new ↦ rw new (Each-append m _ h (p, tt))
  ]

  pub Each-erase : (k : K) (m : Assoc K V) → Each P m → Each P (erase k m)
  unfolding erase
  Each-erase k [] h = h
  Each-erase k ((j, v) ∷ m) h = elim (Bool-cases (k == j)) [
    | inl same ↦ rw same (Each-erase k m h.1)
    | inr other ↦ rw other (h.0, Each-erase k m h.1)
  ]

  -- What `f` does to one entry carries over, where `f` is applied.
  pub Each-update :
      (k : K) (f : V → V) (m : Assoc K V)
      → ((v : V) → P k v → P k (f v))
      → Each P m
      → Each P (update k f m)
  unfolding update
  Each-update k f [] keep h = h
  Each-update k f ((j, v) ∷ m) keep h = elim (Bool-cases (k == j)) [
    | inl same ↦ rw same (
      subst (λ i. P i v → P i (f v)) ((==_iff k j).0 same) (keep v) h.0,
      Each-update k f m keep h.1,
    )
    | inr other ↦ rw other (h.0, Each-update k f m keep h.1)
  ]

  pub Each-update_all :
      (f : V → V) (m : Assoc K V)
      → ((k : K) (v : V) → P k v → P k (f v))
      → Each P m
      → Each P (update_all f m)
  Each-update_all f [] keep h = h
  Each-update_all f ((j, v) ∷ m) keep h = (keep j v h.0, Each-update_all f m keep h.1)

pub Each_map {κ μ} :
    {K V : Type 0} (P : K → V → Type κ) (Q : K → V → Type μ) (m : Assoc K V)
    → ((k : K) (v : V) → P k v → Q k v)
    → Each P m
    → Each Q m
Each_map P Q [] f h = tt
Each_map P Q ((j, v) ∷ m) f h = (f j v h.0, Each_map P Q m f h.1)

module _ {K V : Type 0} ⦃e : Eq K⦄ where
  Distinct-append :
      (k : K) (v : V) (m : Assoc K V)
      → has_key k m ≡ false
      → Distinct m
      → Distinct (m ++ ((k, v) ∷ []))
  unfolding has_key
  Distinct-append k v [] h d = (refl, tt)
  Distinct-append k v ((j, w) ∷ m) h d = (
    rw (has_key-append j m ((k, v) ∷ []))
        (unfold has_key in ground (arith, ==_iff j k, ==_iff k j)),
    Distinct-append k v m (ground arith) d.1,
  )

  pub Distinct-emplace : (k : K) (v : V) (m : Assoc K V) → Distinct m → Distinct (emplace k v m)
  unfolding emplace
  Distinct-emplace k v m d = elim (Bool-cases (has_key k m)) [
    | inl old ↦ rw old d
    | inr new ↦ rw new (Distinct-append k v m new d)
  ]

  pub Distinct-erase : (k : K) (m : Assoc K V) → Distinct m → Distinct (erase k m)
  unfolding erase
  Distinct-erase k [] d = d
  Distinct-erase k ((j, v) ∷ m) d = elim (Bool-cases (k == j)) [
    | inl same ↦ rw same (Distinct-erase k m d.1)
    | inr other ↦ rw other (rw (has_key-erase j k m, d.0) (ground arith), Distinct-erase k m d.1)
  ]

  pub Distinct-update : (k : K) (f : V → V) (m : Assoc K V) → Distinct m → Distinct (update k f m)
  unfolding update
  Distinct-update k f [] d = d
  Distinct-update k f ((j, v) ∷ m) d = elim (Bool-cases (k == j)) [
    | inl same ↦ rw same (rw (has_key-update j k f m) d.0, Distinct-update k f m d.1)
    | inr other ↦ rw other (rw (has_key-update j k f m) d.0, Distinct-update k f m d.1)
  ]

  pub Distinct-update_all : (f : V → V) (m : Assoc K V) → Distinct m → Distinct (update_all f m)
  Distinct-update_all f [] d = d
  Distinct-update_all f ((j, v) ∷ m) d =
      (rw (has_key-update_all j f m) d.0, Distinct-update_all f m d.1)
