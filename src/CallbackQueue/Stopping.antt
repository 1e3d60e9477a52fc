-- ===== src/CallbackQueue/Stopping.antt =====
-- What `stop` waits for: the worker's end.
use co_bridge.Base.{
  ℕ, ◌≤◌, ◌≡◌, ◌≢◌, refl, ap, ◌∙◌, List, [], ◌∷◌, ◌++◌, Option, none, some, Bool-cases, inl, inr,
  true, arith, if◌then◌else◌,
}
use co_bridge.CallbackQueue.Liveness.{turns-cons}
use co_bridge.CallbackQueue.{
  Worker, at_head, acquiring, testing, tested, asleep, woken, past_wait, running, stopped, Callback,
  CallbackQueue, Event, work, spurious_wakeup, admit, push, set_quit, notify_all, wake, holds_lock,
  do_work, take_front, pick, push_picked, admit_callback, push_callback, step, run, turns,
}
use co_bridge.CallbackQueue.Ending.{left, Up, step-Ending}

ended : (w : Worker) → Up w → left w ≤ 0 → w ≡ stopped
ended at_head u h = absurd (omega arith)
ended acquiring u h = absurd (omega arith)
ended testing u h = absurd (omega arith)
ended tested u h = elim u [ ]
ended asleep u h = elim u [ ]
ended woken u h = absurd (omega arith)
ended past_wait u h = absurd (omega arith)
ended (running cb) u h = absurd (omega arith)
ended stopped u h = refl

run-ends :
    (es : List Event) (q : CallbackQueue)
    → q.quit ≡ true
    → Up q.worker
    → left q.worker ≤ turns es
    → (run es q).worker ≡ stopped
unfolding run
run-ends [] q g u h = ended q.worker u h
run-ends (e ∷ es) q g u h =
    let p = step-Ending e q g u in
    run-ends es (step e q) p.quitting p.up (omega (arith, p.nearer, turns-cons e es))

Up-notified : (w : Worker) → w ≢ tested → Up (wake w) × (left (wake w) ≤ 3)
Up-notified at_head n = (tt, omega arith)
Up-notified acquiring n = (tt, omega arith)
Up-notified testing n = (tt, omega arith)
Up-notified tested n = absurd (n refl)
Up-notified asleep n = (tt, omega arith)
Up-notified woken n = (tt, omega arith)
Up-notified past_wait n = (tt, omega arith)
Up-notified (running cb) n = (tt, omega arith)
Up-notified stopped n = (tt, omega arith)

do_work-quit : (w : Worker) (q : CallbackQueue) → q.quit ≡ true → (do_work w q).quit ≡ true
unfolding do_work take_front
do_work-quit at_head q g = g
do_work-quit acquiring q g = g
do_work-quit testing q g = g
do_work-quit tested q g = g
do_work-quit asleep q g = g
do_work-quit woken q g = g
do_work-quit past_wait q g = rw g refl
do_work-quit (running cb) q g = g
do_work-quit stopped q g = g

push_picked-quit :
    (o : Option (Callback × List Callback)) (q : CallbackQueue)
    → q.quit ≡ true
    → (push_picked o q).quit ≡ true
unfolding push_picked
push_picked-quit none q g = g
push_picked-quit (some p) q g = g

-- The flag is never taken back.
step-quit : (e : Event) (q : CallbackQueue) → q.quit ≡ true → (step e q).quit ≡ true
unfolding step admit_callback push_callback
step-quit work q g = do_work-quit q.worker q g
step-quit spurious_wakeup q g = g
step-quit (admit cb) q g = rw g refl
step-quit (push n) q g = elim (Bool-cases (holds_lock q.worker)) [
  | inl held ↦ rw held g
  | inr free ↦ rw free (push_picked-quit (pick n q.admitted) q g)
]
step-quit set_quit q g = refl
step-quit notify_all q g = g

run-quit : (es : List Event) (q : CallbackQueue) → q.quit ≡ true → (run es q).quit ≡ true
unfolding run
run-quit [] q g = g
run-quit (e ∷ es) q g = run-quit es (step e q) (step-quit e q g)

-- A stop ends the worker within three of its turns after the notification, whatever is queued or pushed and whatever
-- the threads do between the store of the flag and the notification, unless the notification comes between the
-- worker's test of the predicate and its sleep.
pub stop-ends :
    (between after : List Event) (q : CallbackQueue)
    → (run (set_quit ∷ between) q).worker ≢ tested
    → 3 ≤ turns after
    → (run (notify_all ∷ after) (run (set_quit ∷ between) q)).worker ≡ stopped
unfolding run step
stop-ends between after q n h =
    let r = run between (record q { quit = true }) in
    let u = Up-notified r.worker n in
    run-ends after (record r { worker = wake r.worker })
      (run-quit between (record q { quit = true }) refl) u.0 (omega (arith, u.1))

-- No further notification: only turns of the worker, other callers of add_callback and stores of
-- the flag.
abbrev pub Quiet : List Event → Type 0
Quiet [] = Unit
Quiet (work ∷ es) = Quiet es
Quiet (spurious_wakeup ∷ es) = ⊥
Quiet (admit cb ∷ es) = Quiet es
Quiet (push n ∷ es) = Quiet es
Quiet (set_quit ∷ es) = Quiet es
Quiet (notify_all ∷ es) = ⊥

record Sleeps (q : CallbackQueue) : Type 0 where
  quitting : q.quit ≡ true
  alone : q.admitted ≡ []
  asleep_there : q.worker ≡ asleep

admit_callback-quit : (cb : Callback) (q : CallbackQueue) → q.quit ≡ true → admit_callback cb q ≡ q
unfolding admit_callback
admit_callback-quit cb q g =
    ap (λ b. if b then q else record q { admitted = q.admitted ++ (cb ∷ []) }) g

push_callback-alone :
    (n : ℕ) (q : CallbackQueue) → q.admitted ≡ [] → q.worker ≡ asleep → push_callback n q ≡ q
unfolding push_callback push_picked
push_callback-alone n q a w =
    ap (λ v. if holds_lock v then q else push_picked (pick n q.admitted) q) w
    ∙ ap (λ v. push_picked (pick n v) q) a

do_work-asleep : (q : CallbackQueue) → q.worker ≡ asleep → do_work q.worker q ≡ q
unfolding do_work
do_work-asleep q w = ap (λ v. do_work v q) w

step-Sleeps : (e : Event) (q : CallbackQueue) → Quiet (e ∷ []) → Sleeps q → Sleeps (step e q)
unfolding step
step-Sleeps work q c h = rw (do_work-asleep q h.asleep_there) h
step-Sleeps spurious_wakeup q c h = elim c [ ]
step-Sleeps (admit cb) q c h = rw (admit_callback-quit cb q h.quitting) h
step-Sleeps (push n) q c h = rw (push_callback-alone n q h.alone h.asleep_there) h
step-Sleeps set_quit q c h = record {
  quitting = refl;
  alone = h.alone;
  asleep_there = h.asleep_there;
}
step-Sleeps notify_all q c h = elim c [ ]

Quiet-cons : (e : Event) (es : List Event) → Quiet (e ∷ es) → Quiet (e ∷ []) × Quiet es
Quiet-cons work es c = (tt, c)
Quiet-cons spurious_wakeup es c = elim c [ ]
Quiet-cons (admit cb) es c = (tt, c)
Quiet-cons (push n) es c = (tt, c)
Quiet-cons set_quit es c = (tt, c)
Quiet-cons notify_all es c = elim c [ ]

run-Sleeps : (es : List Event) (q : CallbackQueue) → Quiet es → Sleeps q → Sleeps (run es q)
unfolding run
run-Sleeps [] q c h = h
run-Sleeps (e ∷ es) q c h =
    let d = Quiet-cons e es c in run-Sleeps es (step e q) d.1 (step-Sleeps e q d.0 h)

-- The worker takes its turn after the notification and sleeps.
late-Sleeps :
    (q : CallbackQueue)
    → q.worker ≡ tested
    → q.admitted ≡ []
    → Sleeps (run (set_quit ∷ notify_all ∷ work ∷ []) q)
unfolding run step do_work
late-Sleeps q w a =
    let r : CallbackQueue = record q { quit = true; worker = wake q.worker } in
    let e : do_work (wake q.worker) r ≡ record r { worker = asleep } =
      ap (λ v. do_work (wake v) r) w in
    rw e (record { quitting = refl; alone = a; asleep_there = refl })

-- A stop that comes between the worker's test of the predicate and its sleep is not noticed: if no
-- caller of add_callback is under way and no further notification or spurious wake-up comes, the
-- worker sleeps for ever, and the join of stop does not return.
pub stop-hangs :
    (es : List Event) (q : CallbackQueue)
    → q.worker ≡ tested
    → q.admitted ≡ []
    → Quiet es
    → (run (set_quit ∷ notify_all ∷ work ∷ es) q).worker ≡ asleep
unfolding run
stop-hangs es q w a c = (run-Sleeps es _ c (late-Sleeps q w a)).asleep_there
