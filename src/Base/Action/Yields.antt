-- ===== src/Base/Action/Yields.antt =====
-- Postconditions of actions: what holds of the state, and of the value where one is returned.
use mathlib.Core.Bool.{Bool, true, false}
use mathlib.Core.List.{List, [], ◌∷◌}
use mathlib.Core.Path.{◌≡◌, refl}
use co_bridge.Base.Tests.{if◌then◌else◌}
use co_bridge.Base.Lists.{All}
use co_bridge.Base.Errors.{Exception}
use co_bridge.Base.Action.{
  Outcome, returned, thrown, Action, pure, throw, lift, gets, modify, ◌>>=◌, for_each, continue,
  try_catch, handle_exception,
}

-- `Q` of the value of a call that returns.
abbrev pub OnReturn : {A : Type 0} → (A → Type 0) → Outcome A → Type 0
OnReturn Q (returned a) = Q a
OnReturn Q (thrown x) = Unit

-- From a state with `P`, `m` ends in one with `P`, and returns only values with `Q`.
pub record Yields {S A : Type 0} (P : S → Type 0) (Q : S → A → Type 0) (m : Action S A)
    : Type 0 where
  pub at : (s : S) → P s → P (m s).1 × OnReturn (Q (m s).1) (m s).0

module _ {S A B : Type 0} {P : S → Type 0} where
  pub Yields-bind :
      (Q : A → Type 0) (R : S → B → Type 0) (m : Action S A) (f : A → Action S B)
      → Yields P (λ _. Q) m
      → ((a : A) → Q a → Yields P R (f a))
      → Yields P R (m >>= f)
  unfolding ◌>>=◌
  Yields-bind Q R m f ym yf = record { at = λ s p. go (m s).0 (m s).1 (ym.at s p).0 (ym.at s p).1 }
    where
      go :
          (o : Outcome A) (s' : S)
          → P s'
          → OnReturn Q o
          → P (continue o f s').1 × OnReturn (R (continue o f s').1) (continue o f s').0
      go (returned a) s' p q = (yf a q).at s' p
      go (thrown x) s' p q = (p, tt)

module _ {S A : Type 0} {P : S → Type 0} where
  pub Yields-lift : (Q : A → Type 0) (o : Outcome A) → OnReturn Q o → Yields P (λ _. Q) (lift o)
  unfolding lift
  Yields-lift Q o h = record { at = λ s p. (p, h) }

  pub Yields-throw : (Q : S → A → Type 0) (x : Exception) → Yields P Q (throw x)
  unfolding throw
  Yields-throw Q x = record { at = λ s p. (p, tt) }

  pub Yields-pure : (Q : A → Type 0) (a : A) → Q a → Yields P (λ _. Q) (pure a)
  unfolding pure
  Yields-pure Q a q = record { at = λ s p. (p, q) }

  pub Yields-try_catch :
      (Q : A → Type 0) (m : Action S A) (h : Exception → Action S A)
      → Yields P (λ _. Q) m
      → ((x : Exception) → Yields P (λ _. Q) (h x))
      → Yields P (λ _. Q) (try_catch m h)
  unfolding try_catch
  Yields-try_catch Q m h ym yh = record {
    at = λ s p. go (m s).0 (m s).1 (ym.at s p).0 (ym.at s p).1;
  }
    where
      go :
          (o : Outcome A) (s' : S)
          → P s'
          → OnReturn Q o
          → P (handle_exception o h s').1 × OnReturn Q (handle_exception o h s').0
      go (returned a) s' p q = (p, q)
      go (thrown x) s' p q = (yh x).at s' p

  pub Yields-if :
      (Q : S → A → Type 0) (b : Bool) (m n : Action S A)
      → Yields P Q m
      → Yields P Q n
      → Yields P Q (if b then m else n)
  Yields-if Q true m n ym yn = ym
  Yields-if Q false m n ym yn = yn

  pub Yields-for_each :
      (xs : List A) (body : A → Action S Unit)
      → All (λ a. Yields P (λ _ _. Unit {0}) (body a)) xs
      → Yields P (λ _ _. Unit {0}) (for_each xs body)
  unfolding for_each pure
  Yields-for_each [] body h = record { at = λ s p. (p, tt) }
  Yields-for_each (a ∷ as') body h =
      Yields-bind (λ _. Unit) (λ _ _. Unit) (body a) (λ _. for_each as' body) h.0
        (λ _ _. Yields-for_each as' body h.1)

OnReturn-weaken :
    {A : Type 0} (Q R : A → Type 0) (o : Outcome A)
    → ((a : A) → Q a → R a)
    → OnReturn Q o
    → OnReturn R o
OnReturn-weaken Q R (returned a) f h = f a h
OnReturn-weaken Q R (thrown x) f h = tt

module _ {S A : Type 0} {P : S → Type 0} where
  pub Yields-weaken :
      (Q R : A → Type 0) (m : Action S A)
      → ((a : A) → Q a → R a)
      → Yields P (λ _. Q) m
      → Yields P (λ _. R) m
  Yields-weaken Q R m f y = record {
    at = λ s p. ((y.at s p).0, OnReturn-weaken Q R (m s).0 f (y.at s p).1);
  }

module _ {S A B : Type 0} {P : S → Type 0} where
  -- Another predicate holds at the end, where the first one gives it and each continuation ends with it.
  pub bind-ends :
      (Q : A → Type 0) (R : S → Type 0) (m : Action S A) (f : A → Action S B)
      → Yields P (λ _. Q) m
      → ((s : S) → P s → R s)
      → ((a : A) → Q a → (s : S) → P s → R (f a s).1)
      → (s : S) → P s
      → R ((m >>= f) s).1
  unfolding ◌>>=◌
  bind-ends Q R m f y thrown_ends ends s p = go (m s).0 (m s).1 (y.at s p).0 (y.at s p).1
    where
      go : (o : Outcome A) (t : S) → P t → OnReturn Q o → R (continue o f t).1
      go (returned a) t h q = ends a q t h
      go (thrown x) t h q = thrown_ends t h

-- A lifted outcome comes with the equation that it is returned.
pub OnReturn-self : {A : Type 0} (o : Outcome A) → OnReturn (λ a. o ≡ returned a) o
OnReturn-self (returned a) = refl
OnReturn-self (thrown x) = tt

module _ {S : Type 0} {P : S → Type 0} where
  pub Yields-modify :
      (f : S → S) → ((s : S) → P s → P (f s)) → Yields P (λ _ _. Unit {0}) (modify f)
  unfolding modify
  Yields-modify f keep = record { at = λ s p. (keep s p, tt) }

  pub Yields-gets : {A : Type 0} (read : S → A) → Yields P (λ _ _. Unit {0}) (gets read)
  unfolding gets
  Yields-gets read = record { at = λ s p. (p, tt) }

pub OnReturn-map :
    {A : Type 0} (Q R : A → Type 0) (o : Outcome A)
    → ((a : A) → Q a → R a)
    → OnReturn Q o
    → OnReturn R o
OnReturn-map Q R (returned a) f q = f a q
OnReturn-map Q R (thrown x) f q = tt
