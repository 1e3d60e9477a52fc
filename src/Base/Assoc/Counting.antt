-- ===== src/Base/Assoc/Counting.antt =====
-- How many values of a map pass a test, through each way to change the map.
use Prim.Native.Nat.{◌+◌, ◌≤◌}
use mathlib.Core.Path.{◌≡◌, refl}
use mathlib.Core.Logic.{inl, inr}
use mathlib.Core.Bool.{Bool, true, false}
use mathlib.Core.Option.{some}
use mathlib.Core.List.{[], ◌∷◌, ◌++◌}
use native.Mathlib.Omega.{arith}
use co_bridge.Base.Tests.{Eq, ◌==◌, ==_iff, if◌then◌else◌, Bool-cases}
use co_bridge.Base.Assoc.{Assoc, Each, Distinct, find, has_key, emplace, erase, update, count_if}

module _ {K V : Type 0} (p : V → Bool) where
  pub count_if_none : (m : Assoc K V) → Each (λ k v. p v ≡ false) m → count_if p m ≡ 0
  unfolding count_if
  count_if_none [] h = refl
  count_if_none ((j, v) ∷ m) h = ground (arith, count_if_none m h.1)

  count_if-append : (m n : Assoc K V) → count_if p (m ++ n) ≡ count_if p m + count_if p n
  unfolding count_if
  count_if-append [] n = omega arith
  count_if-append ((j, v) ∷ m) n = omega (arith, count_if-append m n)

module _ {K V : Type 0} ⦃e : Eq K⦄ (p : V → Bool) where
  pub count_if-emplace :
      (k : K) (v : V) (m : Assoc K V)
      → count_if p (emplace k v m) ≤ count_if p m + (if p v then 1 else 0)
  unfolding emplace
  count_if-emplace k v m = elim (Bool-cases (has_key k m)) [
    | inl old ↦ rw old (omega arith)
    | inr new ↦ rw (new, count_if-append p m ((k, v) ∷ [])) (unfold count_if in omega arith)
  ]

  pub count_if-erase : (k : K) (m : Assoc K V) → count_if p (erase k m) ≤ count_if p m
  unfolding count_if erase
  count_if-erase k [] = omega arith
  count_if-erase k ((j, v) ∷ m) = ground (arith, count_if-erase k m)

  pub count_if-erase_found :
      (k : K) (v : V) (m : Assoc K V)
      → find k m ≡ some v
      → p v ≡ true
      → count_if p (erase k m) + 1 ≤ count_if p m
  unfolding count_if erase find
  count_if-erase_found k v [] f h = cc
  count_if-erase_found k v ((j, w) ∷ m) f h =
      ground (arith, count_if-erase k m, count_if-erase_found k v m)

  pub count_if-update :
      (k : K) (f : V → V) (m : Assoc K V)
      → ((v : V) → p (f v) ≡ true → p v ≡ true)
      → count_if p (update k f m) ≤ count_if p m
  unfolding count_if update
  count_if-update k f [] h = omega arith
  count_if-update k f ((j, v) ∷ m) h = ground (arith, count_if-update k f m h, h v)

  pub count_if-update_found :
      (k : K) (f : V → V) (v : V) (m : Assoc K V)
      → ((w : V) → p (f w) ≡ false)
      → find k m ≡ some v
      → p v ≡ true
      → count_if p (update k f m) + 1 ≤ count_if p m
  unfolding count_if update find
  count_if-update_found k f v [] h e t = cc
  count_if-update_found k f v ((j, w) ∷ m) h e t =
      ground
        (arith, h w, count_if-update_found k f v m h, count_if-update k f m (λ x q. cc (h x, q)))

  count_if-update_absent :
      (k : K) (f : V → V) (m : Assoc K V)
      → has_key k m ≡ false
      → count_if p (update k f m) ≡ count_if p m
  unfolding count_if update has_key
  count_if-update_absent k f [] h = refl
  count_if-update_absent k f ((j, v) ∷ m) h = ground (arith, count_if-update_absent k f m)

  pub count_if-update-Distinct :
      (k : K) (f : V → V) (m : Assoc K V)
      → Distinct m
      → count_if p (update k f m) ≤ count_if p m + 1
  unfolding count_if update
  count_if-update-Distinct k f [] d = omega arith
  count_if-update-Distinct k f ((j, v) ∷ m) d = elim (Bool-cases (k == j)) [
    | inl this ↦
        let absent : has_key k m ≡ false = rw ((==_iff k j).0 this) d.0 in
        rw (this, count_if-update_absent k f m absent) (ground arith)
    | inr other ↦ rw other (ground (arith, count_if-update-Distinct k f m d.1))
  ]
