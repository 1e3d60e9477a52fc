-- ===== src/CallbackQueue/Liveness.antt =====
-- Queued callbacks are run: no wake-up of add_callback is lost, and the worker's turns are bounded.
use co_bridge.Base.{
  ℕ, ◌+◌, ◌*◌, ◌≤◌, ◌<◌, leb, ◌≡◌, refl, List, [], ◌∷◌, false, length, Bool-cases, inl, inr, arith,
}
use co_bridge.CallbackQueue.{
  Worker, at_head, acquiring, testing, tested, asleep, woken, past_wait, running, stopped, Callback,
  CallbackQueue, new_queue, Event, work, spurious_wakeup, admit, push, set_quit, notify_all, step,
  run, turns,
}
use co_bridge.CallbackQueue.Awake.{AwakeAt, IsAwake, Unstopped, need}
use co_bridge.CallbackQueue.Progress.{step-Progress}

pub turns-cons : (e : Event) (es : List Event) → turns (e ∷ es) ≡ turns (e ∷ []) + turns es
turns-cons work es = omega arith
turns-cons spurious_wakeup es = omega arith
turns-cons (admit cb) es = omega arith
turns-cons (push n) es = omega arith
turns-cons set_quit es = omega arith
turns-cons notify_all es = omega arith

Unstopped-cons :
    (e : Event) (es : List Event) → Unstopped (e ∷ es) → Unstopped (e ∷ []) × Unstopped es
Unstopped-cons work es u = (tt, u)
Unstopped-cons spurious_wakeup es u = (tt, u)
Unstopped-cons (admit cb) es u = (tt, u)
Unstopped-cons (push n) es u = (tt, u)
Unstopped-cons set_quit es u = elim u [ ]
Unstopped-cons notify_all es u = (tt, u)

idle_end :
    (goal : ℕ) (w : Worker) (cbs : List Callback) (s : ℕ)
    → AwakeAt w cbs
    → goal ≤ s + length cbs
    → need w + 5 * goal ≤ 5 + 5 * s
    → goal ≤ s
idle_end goal tested cbs s h a b = omega arith
idle_end goal asleep cbs s h a b = omega arith
idle_end goal at_head cbs s h a b = omega arith
idle_end goal acquiring cbs s h a b = omega arith
idle_end goal testing cbs s h a b = omega arith
idle_end goal woken cbs s h a b = omega arith
idle_end goal past_wait cbs s h a b = omega arith
idle_end goal (running cb) cbs s h a b = omega arith
idle_end goal stopped cbs s h a b = elim h [ ]

run-started_grows :
    (es : List Event) (q : CallbackQueue)
    → Unstopped es
    → q.quit ≡ false
    → AwakeAt q.worker q.callback_queue
    → length q.started ≤ length (run es q).started
unfolding run
run-started_grows [] q u g h = omega arith
run-started_grows (e ∷ es) q u g h =
    let v = Unstopped-cons e es u in
    let p = step-Progress e q v.0 g h in
    omega (arith, p.grown, run-started_grows es (step e q) v.1 p.going p.awake)

run-started_reaches :
    (goal : ℕ) (es : List Event) (q : CallbackQueue)
    → Unstopped es
    → q.quit ≡ false
    → AwakeAt q.worker q.callback_queue
    → goal ≤ length q.started + length q.callback_queue
    → need q.worker + 5 * goal ≤ turns es + 5 + 5 * length q.started
    → goal ≤ length (run es q).started
unfolding run
run-started_reaches goal [] q u g h a b =
    idle_end goal q.worker q.callback_queue (length q.started) h a b
run-started_reaches goal (e ∷ es) q u g h a b =
    let v = Unstopped-cons e es u in
    let p = step-Progress e q v.0 g h in
    elim (Bool-cases (leb goal (length q.started))) [
      | inl d ↦
          let i : goal ≤ length q.started = ground arith in
          omega (arith, p.grown, run-started_grows es (step e q) v.1 p.going p.awake)
      | inr d ↦
          let i : length q.started < goal = ground arith in
          let n = p.nearer (omega arith) in
          let t = turns-cons e es in
          run-started_reaches goal es (step e q) v.1 p.going p.awake (omega (arith, p.kept))
            (omega arith)
    ]

need-le : (w : Worker) → need w ≤ 5
need-le at_head = omega arith
need-le acquiring = omega arith
need-le testing = omega arith
need-le tested = omega arith
need-le asleep = omega arith
need-le woken = omega arith
need-le past_wait = omega arith
need-le (running cb) = omega arith
need-le stopped = omega arith

-- From a queue whose worker is not asleep beside a callback.
awake-starts :
    (k : ℕ) (es : List Event) (q : CallbackQueue)
    → IsAwake q
    → Unstopped es
    → k ≤ length q.callback_queue
    → 5 * k ≤ turns es
    → length q.started + k ≤ length (run es q).started
awake-starts k es q h u a b =
    run-started_reaches (length q.started + k) es q u h.going h.awake (omega arith)
      (omega (arith, need-le q.worker))

-- Without a stop the worker never sleeps, nor is about to, beside a queued callback.
run-IsAwake : (es : List Event) (q : CallbackQueue) → Unstopped es → IsAwake q → IsAwake (run es q)
unfolding run
run-IsAwake [] q u h = h
run-IsAwake (e ∷ es) q u h =
    let v = Unstopped-cons e es u in
    let p = step-Progress e q v.0 h.going h.awake in
    run-IsAwake es (step e q) v.1 (record { going = p.going; awake = p.awake })

-- Whatever callers of add_callback and the worker have done with a new queue, in whatever order, and while stop is not
-- called, five turns of the worker for each of the first k callbacks that are then in the queue are enough to start
-- them, whatever else happens meanwhile: no wake-up is lost, neither before nor after.
pub run-starts :
    (k : ℕ) (before after : List Event)
    → Unstopped before
    → Unstopped after
    → k ≤ length (run before new_queue).callback_queue
    → 5 * k ≤ turns after
    → length (run before new_queue).started + k ≤ length (run after (run before new_queue)).started
run-starts k before after u v a b =
    awake-starts k after (run before new_queue)
      (run-IsAwake before new_queue u (record { going = refl; awake = tt })) v a b
