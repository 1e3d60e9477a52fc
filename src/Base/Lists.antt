-- ===== src/Base/Lists.antt =====
-- Lists measured by native numbers, under the library's names, and sets as lists.
use Prim.Native.Nat.{ℕ, zero, suc, ◌+◌}
use mathlib.Core.Path.{◌≡◌, refl, ap}
use mathlib.Core.Logic.{inl, inr}
use mathlib.Core.Bool.{Bool, true, false, not, ◌&&◌, ◌||◌}
use mathlib.Core.List.{List, [], ◌∷◌, ◌++◌}
use native.Mathlib.Omega.{arith}
use co_bridge.Base.Tests.{Eq, ◌==◌, ==_iff, if◌then◌else◌, Bool-cases}

module _ {ℓ} {A : Type ℓ} where
  abbrev pub length : List A → ℕ
  length [] = 0
  length (x ∷ xs) = suc (length xs)

  abbrev pub take : ℕ → List A → List A
  take zero xs = []
  take (suc n) [] = []
  take (suc n) (x ∷ xs) = x ∷ take n xs

  abbrev pub drop : ℕ → List A → List A
  drop zero xs = xs
  drop (suc n) [] = []
  drop (suc n) (x ∷ xs) = drop n xs

  abbrev pub is_empty : List A → Bool
  is_empty [] = true
  is_empty (x ∷ xs) = false

  -- `std::copy_if`
  unfoldable pub copy_if : (A → Bool) → List A → List A
  copy_if p [] = []
  copy_if p (x ∷ xs) = if p x then x ∷ copy_if p xs else copy_if p xs

  -- `std::find_if` compared with `end()`
  unfoldable pub any : (A → Bool) → List A → Bool
  any p [] = false
  any p (x ∷ xs) = p x || any p xs

  pub length-append : (xs ys : List A) → length (xs ++ ys) ≡ length xs + length ys
  length-append [] ys = omega arith
  length-append (x ∷ xs) ys = omega (arith, length-append xs ys)

  abbrev pub All {κ} : (A → Type κ) → List A → Type κ
  All P [] = Unit {κ}
  All P (x ∷ xs) = P x × All P xs

  pub All-append {κ} : (P : A → Type κ) (xs ys : List A) → All P xs → All P ys → All P (xs ++ ys)
  All-append P [] ys h k = k
  All-append P (x ∷ xs) ys h k = (h.0, All-append P xs ys h.1 k)

  pub All-map {κ λ'} :
      (P : A → Type κ) (Q : A → Type λ') (xs : List A) → ((a : A) → P a → Q a) → All P xs → All Q xs
  All-map P Q [] f h = tt
  All-map P Q (x ∷ xs) f h = (f x h.0, All-map P Q xs f h.1)

  pub All-unit : (xs : List A) → All (λ a. Unit {0}) xs
  All-unit [] = tt
  All-unit (x ∷ xs) = (tt, All-unit xs)

  pub any-append : (p : A → Bool) (xs ys : List A) → any p (xs ++ ys) ≡ (any p xs || any p ys)
  unfolding any
  any-append p [] ys = refl
  any-append p (x ∷ xs) ys = ground (arith, any-append p xs ys)

-- A set without order, as the list of its members.
module _ {A : Type 0} ⦃e : Eq A⦄ where
  unfoldable pub contains : A → List A → Bool
  contains a [] = false
  contains a (x ∷ xs) = a == x || contains a xs

  -- `insert` of a set: a member stays where it is.
  unfoldable pub insert : A → List A → List A
  insert a xs = if contains a xs then xs else xs ++ (a ∷ [])

  -- `insert(first, last)`
  unfoldable pub insert_all : List A → List A → List A
  insert_all [] s = s
  insert_all (a ∷ as') s = insert_all as' (insert a s)

  unfoldable pub remove : A → List A → List A
  remove a [] = []
  remove a (x ∷ xs) = if a == x then remove a xs else x ∷ remove a xs

  pub contains-append :
      (a : A) (xs ys : List A) → contains a (xs ++ ys) ≡ (contains a xs || contains a ys)
  unfolding contains
  contains-append a [] ys = refl
  contains-append a (x ∷ xs) ys = ground (arith, contains-append a xs ys)

  pub contains-insert :
      (a b : A) (xs : List A) → contains b (insert a xs) ≡ (b == a || contains b xs)
  unfolding insert
  contains-insert a b xs = elim (Bool-cases (contains a xs)) [
    | inl old ↦ rw old (ground (arith, ==_iff b a))
    | inr new ↦ rw (new, contains-append b xs (a ∷ [])) (unfold contains in ground arith)
  ]

  pub contains-insert_all :
      (b : A) (as' s : List A) → contains b (insert_all as' s) ≡ (contains b as' || contains b s)
  unfolding contains insert_all
  contains-insert_all b [] s = refl
  contains-insert_all b (a ∷ as') s =
      ground (arith, contains-insert_all b as' (insert a s), contains-insert a b s)

  pub contains-remove :
      (a b : A) (xs : List A) → contains b (remove a xs) ≡ (not (b == a) && contains b xs)
  unfolding contains remove
  contains-remove a b [] = ground arith
  contains-remove a b (x ∷ xs) =
      ground (arith, contains-remove a b xs, ==_iff a x, ==_iff b x, ==_iff b a)

  pub contains-copy_if :
      (p : A → Bool) (b : A) (xs : List A) → contains b (copy_if p xs) ≡ (p b && contains b xs)
  unfolding contains copy_if
  contains-copy_if p b [] = ground arith
  contains-copy_if p b (x ∷ xs) = elim (Bool-cases (b == x)) [
    | inl same ↦ ground (arith, contains-copy_if p b xs, ap p ((==_iff b x).0 same))
    | inr other ↦ ground (arith, contains-copy_if p b xs)
  ]
