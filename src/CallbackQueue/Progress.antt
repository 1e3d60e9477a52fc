-- ===== src/CallbackQueue/Progress.antt =====
-- What each step of a thread does for the callbacks while the queue is not stopped.
use co_bridge.Base.{
  ℕ, ◌+◌, ◌*◌, ◌≤◌, ◌≡◌, refl, ap, List, [], ◌∷◌, ◌++◌, Bool, true, false, Option, none, some,
  length, length-append, not, ◌||◌, is_empty, if◌then◌else◌, Bool-cases, inl, inr, arith,
}
use co_bridge.CallbackQueue.{
  Worker, at_head, acquiring, testing, tested, asleep, woken, past_wait, running, stopped, Callback,
  CallbackQueue, Event, work, spurious_wakeup, admit, push, set_quit, notify_all, wake, holds_lock,
  take_front, do_work, pick, push_picked, admit_callback, push_callback, step, turns,
}
use co_bridge.CallbackQueue.Awake.{
  AwakeAt, Unstopped, need, AwakeAt-wake, AwakeAt-wake_same, need-wake,
}

-- What a step from `q`, where the worker stands at `w`, to `r` does for the callbacks; `t` counts
-- the worker's turns in it.
pub record Progress (w : Worker) (t : ℕ) (q r : CallbackQueue) : Type 0 where
  pub going : r.quit ≡ false
  pub awake : AwakeAt r.worker r.callback_queue
  pub kept : length q.started + length q.callback_queue ≤ length r.started + length r.callback_queue
  pub grown : length q.started ≤ length r.started
  pub nearer :
      1 ≤ length q.callback_queue
      → need r.worker + t + 5 * length q.started ≤ need w + 5 * length r.started

take_front-Progress :
    (b : Bool) (cbs : List Callback) (q : CallbackQueue)
    → b ≡ false
    → q.quit ≡ b
    → q.callback_queue ≡ cbs
    → Progress past_wait 1 q (take_front b cbs q)
unfolding take_front
take_front-Progress true cbs q f g e = absurd (ground arith)
take_front-Progress false [] q f g e = record {
  going = g;
  awake = tt;
  kept = omega arith;
  grown = omega arith;
  nearer = λ n. absurd (omega (arith, ap length e));
}
take_front-Progress false (cb ∷ cbs) q f g e =
    let l = length-append q.started (cb ∷ []) in
    let m = ap length e in
    record {
      going = g;
      awake = tt;
      kept = omega arith;
      grown = omega arith;
      nearer = λ n. omega arith;
    }

-- A turn that only moves the worker.
moved-Progress :
    (w w' : Worker) (q : CallbackQueue)
    → q.quit ≡ false
    → AwakeAt w' q.callback_queue
    → (1 ≤ length q.callback_queue → need w' + 1 ≤ need w)
    → Progress w 1 q (record q { worker = w' })
moved-Progress w w' q g h n = record {
  going = g;
  awake = h;
  kept = omega arith;
  grown = omega arith;
  nearer = λ m. omega (arith, n m);
}

tested-Progress :
    (b : Bool) (cbs : List Callback) (q : CallbackQueue)
    → q.quit ≡ false
    → b ≡ false
    → q.callback_queue ≡ cbs
    → Progress testing 1 q
        (record q { worker = if b || not (is_empty cbs) then past_wait else tested })
tested-Progress true cbs q g f e = absurd (ground arith)
tested-Progress false [] q g f e =
    moved-Progress testing tested q g (ap length e) (λ n. absurd (omega (arith, ap length e)))
tested-Progress false (cb ∷ cbs) q g f e =
    moved-Progress testing past_wait q g tt (λ n. omega arith)

do_work-Progress :
    (w : Worker) (q : CallbackQueue)
    → q.worker ≡ w
    → q.quit ≡ false
    → AwakeAt w q.callback_queue
    → Progress w 1 q (do_work w q)
unfolding do_work
do_work-Progress at_head q e g h =
    elim q.quit
        as (λ b.
          b ≡ false
          → Progress at_head 1 q (record q { worker = if b then stopped else acquiring })) [
            | true ↦ λ f. absurd (ground arith)
            | false ↦ λ f. moved-Progress at_head acquiring q g tt (λ n. omega arith)
          ]
      g
do_work-Progress acquiring q e g h = moved-Progress acquiring testing q g tt (λ n. omega arith)
do_work-Progress testing q e g h = tested-Progress q.quit q.callback_queue q g g refl
do_work-Progress tested q e g h = moved-Progress tested asleep q g h (λ n. absurd (omega arith))
do_work-Progress asleep q e g h = record {
  going = g;
  awake = rw e h;
  kept = omega arith;
  grown = omega arith;
  nearer = λ n. absurd (omega arith);
}
do_work-Progress woken q e g h = moved-Progress woken testing q g tt (λ n. omega arith)
do_work-Progress past_wait q e g h = take_front-Progress q.quit q.callback_queue q g refl refl
do_work-Progress (running cb) q e g h = record {
  going = g;
  awake = tt;
  kept = omega arith;
  grown = omega arith;
  nearer = λ n. omega arith;
}
do_work-Progress stopped q e g h = elim h [ ]

-- A step that leaves the worker and the callbacks alone.
idle-Progress :
    (q r : CallbackQueue)
    → q.quit ≡ false
    → AwakeAt q.worker q.callback_queue
    → r.quit ≡ q.quit
    → r.worker ≡ q.worker
    → r.callback_queue ≡ q.callback_queue
    → r.started ≡ q.started
    → Progress q.worker 0 q r
idle-Progress q r g h a b c d = record {
  going = rw a g;
  awake = rw (b, c) h;
  kept = rw (c, d) (omega arith);
  grown = rw d (omega arith);
  nearer = λ n. rw (b, d) (omega arith);
}

woken-Progress :
    (q : CallbackQueue)
    → q.quit ≡ false
    → AwakeAt q.worker q.callback_queue
    → Progress q.worker 0 q (record q { worker = wake q.worker })
woken-Progress q g h = record {
  going = g;
  awake = AwakeAt-wake_same q.worker q.callback_queue h;
  kept = omega arith;
  grown = omega arith;
  nearer = λ n. omega (arith, need-wake q.worker q.callback_queue n h);
}

push_picked-Progress :
    (o : Option (Callback × List Callback)) (q : CallbackQueue)
    → q.quit ≡ false
    → AwakeAt q.worker q.callback_queue
    → holds_lock q.worker ≡ false
    → Progress q.worker 0 q (push_picked o q)
unfolding push_picked
push_picked-Progress none q g h f = idle-Progress q q g h refl refl refl refl
push_picked-Progress (some (cb, others)) q g h f = record {
  going = g;
  awake = AwakeAt-wake q.worker q.callback_queue (q.callback_queue ++ (cb ∷ [])) f h;
  kept = omega (arith, length-append q.callback_queue (cb ∷ []));
  grown = omega arith;
  nearer = λ n. omega (arith, need-wake q.worker q.callback_queue n h);
}

pub step-Progress :
    (e : Event) (q : CallbackQueue)
    → Unstopped (e ∷ [])
    → q.quit ≡ false
    → AwakeAt q.worker q.callback_queue
    → Progress q.worker (turns (e ∷ [])) q (step e q)
unfolding step admit_callback push_callback
step-Progress work q u g h = do_work-Progress q.worker q refl g h
step-Progress spurious_wakeup q u g h = woken-Progress q g h
step-Progress (admit cb) q u g h =
    elim q.quit
      as (λ b.
        Progress q.worker 0 q (if b then q else record q { admitted = q.admitted ++ (cb ∷ []) })) [
          | true ↦ idle-Progress q q g h refl refl refl refl
          | false ↦ idle-Progress q _ g h refl refl refl refl
        ]
step-Progress (push n) q u g h = elim (Bool-cases (holds_lock q.worker)) [
  | inl b ↦ rw b (idle-Progress q q g h refl refl refl refl)
  | inr b ↦ rw b (push_picked-Progress (pick n q.admitted) q g h b)
]
step-Progress set_quit q u g h = elim u [ ]
step-Progress notify_all q u g h = woken-Progress q g h
