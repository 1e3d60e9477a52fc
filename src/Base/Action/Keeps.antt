-- ===== src/Base/Action/Keeps.antt =====
-- Invariants of actions: one rule for each way to build an action.
use mathlib.Core.Bool.{Bool, true, false}
use mathlib.Core.Option.{Option, none, some}
use mathlib.Core.List.{List, [], ◌∷◌}
use co_bridge.Base.Tests.{if◌then◌else◌}
use co_bridge.Base.Errors.{Exception}
use co_bridge.Base.Action.{
  Outcome, returned, thrown, Action, pure, throw, gets, lift, modify, ◌>>=◌, try_catch, for_each,
  continue, handle_exception,
}

-- `m` keeps `P`, whether it returns or throws.
pub record Keeps {S A : Type 0} (P : S → Type 0) (m : Action S A) : Type 0 where
  pub at : (s : S) → P s → P (m s).1

module _ {S A : Type 0} {P : S → Type 0} where
  pub Keeps-if :
      (b : Bool) (m n : Action S A) → Keeps P m → Keeps P n → Keeps P (if b then m else n)
  Keeps-if true m n on_true on_false = on_true
  Keeps-if false m n on_true on_false = on_false

  pub Keeps-lift : (o : Outcome A) → Keeps P (lift o)
  unfolding lift
  Keeps-lift o = record { at = λ state p. p }

  pub Keeps-throw : (x : Exception) → Keeps P (throw {A = A} x)
  unfolding throw
  Keeps-throw x = record { at = λ state p. p }

  pub Keeps-pure : (value : A) → Keeps P (pure value)
  unfolding pure
  Keeps-pure value = record { at = λ state p. p }

  -- From one state, what the body keeps there and the handlers keep.
  pub try_catch-from :
      (m : Action S A) (h : Exception → Action S A) (s : S)
      → P (m s).1
      → ((x : Exception) → Keeps P (h x))
      → P (try_catch m h s).1
  unfolding try_catch
  try_catch-from m h s first kh = go (m s).0 (m s).1 first
    where
      go : (o : Outcome A) (s' : S) → P s' → P (handle_exception o h s').1
      go (returned a) s' p = p
      go (thrown x) s' p = (kh x).at s' p

  pub Keeps-try_catch :
      (m : Action S A) (h : Exception → Action S A)
      → Keeps P m
      → ((x : Exception) → Keeps P (h x))
      → Keeps P (try_catch m h)
  Keeps-try_catch m h km kh = record { at = λ s p. try_catch-from m h s (km.at s p) kh }

module _ {S : Type 0} {P : S → Type 0} where
  pub Keeps-gets : {A : Type 0} (read : S → A) → Keeps P (gets read)
  unfolding gets
  Keeps-gets read = record { at = λ state p. p }

  pub Keeps-modify : (f : S → S) → ((s : S) → P s → P (f s)) → Keeps P (modify f)
  unfolding modify
  Keeps-modify f keep = record { at = λ s h. keep s h }

module _ {S A B : Type 0} {P : S → Type 0} where
  -- From one state, what the first keeps there and the second keeps.
  pub bind-from :
      (m : Action S A) (f : A → Action S B) (s : S)
      → P (m s).1
      → ((a : A) → Keeps P (f a))
      → P ((m >>= f) s).1
  unfolding ◌>>=◌
  bind-from m f s first kf = go (m s).0 (m s).1 first
    where
      go : (o : Outcome A) (s' : S) → P s' → P (continue o f s').1
      go (returned a) s' p = (kf a).at s' p
      go (thrown x) s' p = p

  pub Keeps-bind :
      (m : Action S A) (f : A → Action S B)
      → Keeps P m
      → ((a : A) → Keeps P (f a))
      → Keeps P (m >>= f)
  Keeps-bind m f km kf = record { at = λ s p. bind-from m f s (km.at s p) kf }

  pub Keeps-option :
      (o : Option A) (m : Action S B) (f : A → Action S B)
      → Keeps P m
      → ((a : A) → Keeps P (f a))
      → Keeps P (elim o [ none ↦ m | some a ↦ f a ])
  Keeps-option none m f km kf = km
  Keeps-option (some a) m f km kf = kf a

module _ {S A : Type 0} {P : S → Type 0} where
  pub Keeps-for_each :
      (xs : List A) (body : A → Action S Unit)
      → ((a : A) → Keeps P (body a))
      → Keeps P (for_each xs body)
  unfolding for_each
  Keeps-for_each [] body k = Keeps-pure tt
  Keeps-for_each (a ∷ as') body k =
      Keeps-bind (body a) (λ _. for_each as' body) (k a) (λ _. Keeps-for_each as' body k)

pub ruleset keeps_rules = (
  Keeps-pure, Keeps-throw, Keeps-lift, Keeps-gets, Keeps-if, Keeps-try_catch, Keeps-bind,
  Keeps-option, Keeps-for_each,
)
