-- ===== src/Base/Assoc/Nested.antt =====
-- Maps of maps, as the bridge keeps its subscriptions and publications: an inner map comes with its
-- first entry and goes with its last.
use mathlib.Core.Path.{◌≡◌, refl, sym, ap, subst, ◌∙◌}
use mathlib.Core.Logic.{inl, inr}
use mathlib.Core.Bool.{true, false}
use mathlib.Core.Option.{Option, none, some}
use mathlib.Core.List.{[], ◌∷◌}
use native.Mathlib.Omega.{arith}
use co_bridge.Base.Tests.{Eq, ◌==◌, ==_iff, ==_refl, if◌then◌else◌, Bool-cases, Option-cases}
use co_bridge.Base.Lists.{is_empty}
use co_bridge.Base.Assoc.{
  Assoc, find, has_key, emplace, erase, update, find-emplace, find-erase, find-update, has_key-find,
  is_some,
}

abbrev pub or_empty : {J V : Type 0} → Option (Assoc J V) → Assoc J V
or_empty none = []
or_empty (some n) = n

module _ {J V : Type 0} ⦃d : Eq J⦄ where
  pub find-emplace_new :
      (j : J) (v : V) (n : Assoc J V) → has_key j n ≡ false → find j (emplace j v n) ≡ some v
  find-emplace_new j v n h = rw (find-emplace j j v n, ==_refl j, h) refl

  pub find_absent : (j : J) (n : Assoc J V) → has_key j n ≡ false → find j n ≡ none
  find_absent j n h = elim (Option-cases (find j n)) [
    | inl missing ↦ missing
    | inr (v, found) ↦ ground (arith, h, has_key-find j n, found)
  ]

  find-erase-emplace :
      (i j : J) (v : V) (n : Assoc J V)
      → find j n ≡ none
      → find i (erase j (emplace j v n)) ≡ find i n
  find-erase-emplace i j v n h = elim (Bool-cases (i == j)) [
    | inl same ↦
        rw (find-erase i j (emplace j v n), same)
          (sym h ∙ ap (λ x. find x n) (sym ((==_iff i j).0 same)))
    | inr other ↦ rw (find-erase i j (emplace j v n), other, find-emplace i j v n, other) refl
  ]

module _ {K J V : Type 0} ⦃e : Eq K⦄ ⦃d : Eq J⦄ where
  abbrev pub inner : K → Assoc K (Assoc J V) → Assoc J V
  inner k m = or_empty (find k m)

  abbrev pub add_inner : K → J → V → Assoc K (Assoc J V) → Assoc K (Assoc J V)
  add_inner k j v m = update k (emplace j v) (emplace k [] m)

  abbrev pub write_inner : K → Assoc J V → Assoc K (Assoc J V) → Assoc K (Assoc J V)
  write_inner k n m = if is_empty n then erase k m else update k (λ old. n) m

  pub find-add_inner :
      (k : K) (j : J) (v : V) (m : Assoc K (Assoc J V))
      → find k (add_inner k j v m) ≡ some (emplace j v (inner k m))
  find-add_inner k j v m = elim (Option-cases (find k m)) [
    | inl missing ↦
        let h : has_key k m ≡ false = has_key-find k m ∙ ap is_some missing in
        rw
          (
            find-update k k (emplace j v) (emplace k [] m),
            find-emplace k k [] m,
            ==_refl k,
            h,
            missing,
          )
          refl
    | inr (n, found) ↦
        let h : has_key k m ≡ true = has_key-find k m ∙ ap is_some found in
        rw
          (
            find-update k k (emplace j v) (emplace k [] m),
            find-emplace k k [] m,
            ==_refl k,
            h,
            found,
          )
          refl
  ]

  find-add_inner_other :
      (i k : K) (j : J) (v : V) (m : Assoc K (Assoc J V))
      → (i == k) ≡ false
      → find i (add_inner k j v m) ≡ find i m
  find-add_inner_other i k j v m h =
      rw (find-update i k (emplace j v) (emplace k [] m), h, find-emplace i k [] m, h) refl

  inner-write_inner :
      (k : K) (n : Assoc J V) (m : Assoc K (Assoc J V)) (old : Assoc J V)
      → find k m ≡ some old
      → inner k (write_inner k n m) ≡ n
  inner-write_inner k [] m old h = rw (find-erase k k m, ==_refl k) refl
  inner-write_inner k (x ∷ n) m old h = rw (find-update k k (λ o. x ∷ n) m, ==_refl k, h) refl

  inner-write_inner_other :
      (i k : K) (n : Assoc J V) (m : Assoc K (Assoc J V))
      → (i == k) ≡ false
      → inner i (write_inner k n m) ≡ inner i m
  inner-write_inner_other i k [] m h = rw (find-erase i k m, h) refl
  inner-write_inner_other i k (x ∷ n) m h = rw (find-update i k (λ o. x ∷ n) m, h) refl

  -- Taking out what was just put in leaves every entry as it was.
  pub write-add_inner :
      (k : K) (j : J) (v : V) (m : Assoc K (Assoc J V))
      → find j (inner k m) ≡ none
      → (i : K) (x : J)
      → find x (inner i (write_inner k (erase j (emplace j v (inner k m))) (add_inner k j v m)))
        ≡ find x (inner i m)
  write-add_inner k j v m h i x = elim (Bool-cases (i == k)) [
    | inl same ↦
        let kept =
          inner-write_inner k (erase j (emplace j v (inner k m))) (add_inner k j v m)
            (emplace j v (inner k m)) (find-add_inner k j v m) in
        subst
          (λ q.
            find x (inner q (write_inner k (erase j (emplace j v (inner k m))) (add_inner k j v m)))
            ≡ find x (inner q m))
          (sym ((==_iff i k).0 same)) (ap (find x) kept ∙ find-erase-emplace x j v (inner k m) h)
    | inr other ↦ ap (find x) (
        inner-write_inner_other i k (erase j (emplace j v (inner k m))) (add_inner k j v m) other
        ∙ ap or_empty (find-add_inner_other i k j v m other))
  ]
