-- ===== src/CallbackQueue/Ending.antt =====
-- What each step of a thread does for the worker's end, once the flag of stop is set.
use co_bridge.Base.{
  ℕ, ◌-◌, ◌≤◌, ◌≡◌, refl, List, [], ◌∷◌, ◌++◌, Bool, true, false, Option, none, some, Bool-cases,
  inl, inr, arith, if◌then◌else◌, ◌||◌, not, is_empty,
}
use co_bridge.CallbackQueue.{
  Worker, at_head, acquiring, testing, tested, asleep, woken, past_wait, running, stopped, Callback,
  CallbackQueue, Event, work, spurious_wakeup, admit, push, set_quit, notify_all, wake, holds_lock,
  take_front, do_work, pick, push_picked, admit_callback, push_callback, step, turns,
}

-- The turns until the worker ends, once the flag is set.
abbrev pub left : Worker → ℕ
left at_head = 1
left acquiring = 3
left testing = 2
left tested = 0
left asleep = 0
left woken = 3
left past_wait = 1
left (running cb) = 2
left stopped = 0

abbrev pub Up : Worker → Type 0
Up at_head = Unit
Up acquiring = Unit
Up testing = Unit
Up tested = ⊥
Up asleep = ⊥
Up woken = Unit
Up past_wait = Unit
Up (running cb) = Unit
Up stopped = Unit

pub record Ending (w : Worker) (t : ℕ) (r : CallbackQueue) : Type 0 where
  pub quitting : r.quit ≡ true
  pub up : Up r.worker
  pub nearer : left r.worker ≤ left w - t

Up-wake : (w : Worker) → Up w → wake w ≡ w
Up-wake at_head u = refl
Up-wake acquiring u = refl
Up-wake testing u = refl
Up-wake tested u = elim u [ ]
Up-wake asleep u = elim u [ ]
Up-wake woken u = refl
Up-wake past_wait u = refl
Up-wake (running cb) u = refl
Up-wake stopped u = refl

take_front-Ending :
    (b : Bool) (cbs : List Callback) (q : CallbackQueue)
    → b ≡ true
    → q.quit ≡ true
    → Ending past_wait 1 (take_front b cbs q)
unfolding take_front
take_front-Ending true cbs q f g = record { quitting = g; up = tt; nearer = omega arith }
take_front-Ending false cbs q f g = absurd (ground arith)

head-Ending :
    (b : Bool) (q : CallbackQueue)
    → b ≡ true
    → q.quit ≡ true
    → Ending at_head 1 (record q { worker = if b then stopped else acquiring })
head-Ending true q f g = record { quitting = g; up = tt; nearer = omega arith }
head-Ending false q f g = absurd (ground arith)

test-Ending :
    (b c : Bool) (q : CallbackQueue)
    → b ≡ true
    → q.quit ≡ true
    → Ending testing 1 (record q { worker = if b || c then past_wait else tested })
test-Ending true c q f g = record { quitting = g; up = tt; nearer = omega arith }
test-Ending false c q f g = absurd (ground arith)

do_work-Ending :
    (w : Worker) (q : CallbackQueue)
    → q.worker ≡ w
    → q.quit ≡ true
    → Up w
    → Ending w 1 (do_work w q)
unfolding do_work
do_work-Ending at_head q e g u = head-Ending q.quit q g g
do_work-Ending acquiring q e g u = record { quitting = g; up = tt; nearer = omega arith }
do_work-Ending testing q e g u = test-Ending q.quit (not (is_empty q.callback_queue)) q g g
do_work-Ending tested q e g u = elim u [ ]
do_work-Ending asleep q e g u = elim u [ ]
do_work-Ending woken q e g u = record { quitting = g; up = tt; nearer = omega arith }
do_work-Ending past_wait q e g u = take_front-Ending q.quit q.callback_queue q g g
do_work-Ending (running cb) q e g u = record { quitting = g; up = tt; nearer = omega arith }
do_work-Ending stopped q e g u = record { quitting = g; up = rw e tt; nearer = rw e (omega arith) }

-- A step after which the worker stands where it stood.
same-Ending : (w : Worker) (r : CallbackQueue) → r.worker ≡ w → r.quit ≡ true → Up w → Ending w 0 r
same-Ending w r e g u = record { quitting = g; up = rw e u; nearer = rw e (omega arith) }

push_picked-Ending :
    (o : Option (Callback × List Callback)) (q : CallbackQueue)
    → q.quit ≡ true
    → Up q.worker
    → Ending q.worker 0 (push_picked o q)
unfolding push_picked
push_picked-Ending none q g u = same-Ending q.worker q refl g u
push_picked-Ending (some (cb, others)) q g u = same-Ending q.worker _ (Up-wake q.worker u) g u

pub step-Ending :
    (e : Event) (q : CallbackQueue)
    → q.quit ≡ true
    → Up q.worker
    → Ending q.worker (turns (e ∷ [])) (step e q)
unfolding step admit_callback push_callback
step-Ending work q g u = do_work-Ending q.worker q refl g u
step-Ending spurious_wakeup q g u = same-Ending q.worker _ (Up-wake q.worker u) g u
step-Ending (admit cb) q g u =
    elim q.quit
      as (λ b.
        Ending q.worker 0 (if b then q else record q { admitted = q.admitted ++ (cb ∷ []) })) [
          | true ↦ same-Ending q.worker q refl g u
          | false ↦ same-Ending q.worker _ refl g u
        ]
step-Ending (push n) q g u = elim (Bool-cases (holds_lock q.worker)) [
  | inl b ↦ rw b (same-Ending q.worker q refl g u)
  | inr b ↦ rw b (push_picked-Ending (pick n q.admitted) q g u)
]
step-Ending set_quit q g u = same-Ending q.worker _ refl refl u
step-Ending notify_all q g u = same-Ending q.worker _ (Up-wake q.worker u) g u
