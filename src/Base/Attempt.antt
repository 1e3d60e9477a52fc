-- ===== src/Base/Attempt.antt =====
-- What a conversion does that may have no defined behaviour, beside its value and its exceptions.
use co_bridge.Base.Errors.{Exception}
use co_bridge.Base.Action.{Outcome, returned, thrown}

pub data Attempt (A : Type 0) : Type 0 where
  done : A → Attempt A
  raised : Exception → Attempt A
  undefined_behaviour : Attempt A

abbrev pub attempt_of : {A : Type 0} → Outcome A → Attempt A
attempt_of (returned a) = done a
attempt_of (thrown x) = raised x

abbrev pub map_attempt : {A B : Type 0} → (A → B) → Attempt A → Attempt B
map_attempt f (done a) = done (f a)
map_attempt f (raised x) = raised x
map_attempt f undefined_behaviour = undefined_behaviour

abbrev pub and_then : {A B : Type 0} → Attempt A → (A → Attempt B) → Attempt B
and_then (done a) f = f a
and_then (raised x) f = raised x
and_then undefined_behaviour f = undefined_behaviour
