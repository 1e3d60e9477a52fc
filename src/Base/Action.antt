-- ===== src/Base/Action.antt =====
-- Member functions that change the object and may throw. What was written before an exception
-- stays written, so the state comes back beside the exception too.
pub mod Keeps
pub mod Yields
use mathlib.Core.List.{List, [], ◌∷◌}
use co_bridge.Base.Errors.{Exception}

pub data Outcome (A : Type 0) : Type 0 where
  returned : A → Outcome A
  thrown : Exception → Outcome A

abbrev pub Action : Type 0 → Type 0 → Type 0
Action S A = S → Outcome A × S

module _ {S A : Type 0} where
  unfoldable pub pure : A → Action S A
  pure a s = (returned a, s)

  unfoldable pub throw : Exception → Action S A
  throw x s = (thrown x, s)

  unfoldable pub gets : (S → A) → Action S A
  gets f s = (returned (f s), s)

  unfoldable pub lift : Outcome A → Action S A
  lift o s = (o, s)

unfoldable pub modify : {S : Type 0} → (S → S) → Action S (Unit {0})
modify f s = (returned tt, f s)

module _ {S A B : Type 0} where
  abbrev pub continue : Outcome A → (A → Action S B) → Action S B
  continue (returned a) f s = f a s
  continue (thrown x) f s = (thrown x, s)

  infixl 5 ◌>>=◌ ◌>>◌
  unfoldable pub ◌>>=◌ : Action S A → (A → Action S B) → Action S B
  unfolding pure throw gets lift modify
  ◌>>=◌ m f s = let (o, s') = m s in continue o f s'

  abbrev pub ◌>>◌ : Action S A → Action S B → Action S B
  m >> n = m >>= λ _. n

module _ {S : Type 0} where
  abbrev pub handle_exception : {A : Type 0} → Outcome A → (Exception → Action S A) → Action S A
  handle_exception (returned a) h s = (returned a, s)
  handle_exception (thrown x) h s = h x s

  -- `try { m } catch { h }`
  unfoldable pub try_catch : {A : Type 0} → Action S A → (Exception → Action S A) → Action S A
  try_catch m h s = let (o, s') = m s in handle_exception o h s'

  -- A range-for loop: an exception in the body ends it.
  unfoldable pub for_each : {A : Type 0} → List A → (A → Action S (Unit {0})) → Action S (Unit {0})
  unfolding pure ◌>>=◌
  for_each [] body = pure tt
  for_each (a ∷ as') body = body a >>= λ _. for_each as' body
