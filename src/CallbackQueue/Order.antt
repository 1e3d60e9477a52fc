-- ===== src/CallbackQueue/Order.antt =====
-- The order in which callbacks are run, and what runs after a stop.
use co_bridge.Base.{
  ◌≡◌, refl, sym, ap, ◌∙◌, ◌||◌, not, is_empty, if◌then◌else◌, List, [], ◌∷◌, ◌++◌, Bool, true,
  false, Option, none, some, arith, Bool-cases, inl, inr,
}
use mathlib.Core.List.{append-nil, append_assoc}
use co_bridge.CallbackQueue.{
  Worker, at_head, acquiring, testing, tested, asleep, woken, past_wait, running, stopped,
  CallbackQueue, Event, work, spurious_wakeup, admit, push, set_quit, notify_all, wake, holds_lock,
  take_front, do_work, pick, push_picked, admit_callback, push_callback, step, run,
}
use co_bridge.CallbackQueue

abbrev pub current : Worker → List CallbackQueue.Callback
current at_head = []
current acquiring = []
current testing = []
current tested = []
current asleep = []
current woken = []
current past_wait = []
current (running cb) = cb ∷ []
current stopped = []

-- What was pushed was started or waits, and what was started is finished or running, in this order.
pub record IsFifo (q : CallbackQueue) : Type 0 where
  pub pushed_order : q.pushed ≡ q.started ++ q.callback_queue
  pub started_order : q.started ≡ q.finished ++ current q.worker

current-wake : (w : Worker) → current (wake w) ≡ current w
current-wake at_head = refl
current-wake acquiring = refl
current-wake testing = refl
current-wake tested = refl
current-wake asleep = refl
current-wake woken = refl
current-wake past_wait = refl
current-wake (running cb) = refl
current-wake stopped = refl

take_front-IsFifo :
    (b : Bool) (cbs : List CallbackQueue.Callback) (q : CallbackQueue)
    → q.callback_queue ≡ cbs
    → q.worker ≡ past_wait
    → IsFifo q
    → IsFifo (take_front b cbs q)
unfolding take_front
take_front-IsFifo true cbs q e w h = record {
  pushed_order = h.pushed_order;
  started_order = h.started_order ∙ ap (λ v. q.finished ++ current v) w;
}
take_front-IsFifo false [] q e w h = record {
  pushed_order = h.pushed_order;
  started_order = h.started_order ∙ ap (λ v. q.finished ++ current v) w;
}
take_front-IsFifo false (cb ∷ cbs) q e w h = record {
  pushed_order =
      h.pushed_order ∙ ap (λ v. q.started ++ v) e ∙ sym (append_assoc q.started (cb ∷ []) cbs);
  started_order =
      ap (λ v. v ++ (cb ∷ []))
        (h.started_order ∙ ap (λ v. q.finished ++ current v) w ∙ append-nil q.finished);
}

-- A turn that only moves the worker.
moved-IsFifo :
    (q : CallbackQueue) (w : Worker)
    → current w ≡ current q.worker
    → IsFifo q
    → IsFifo (record q { worker = w })
moved-IsFifo q w e h = record {
  pushed_order = h.pushed_order;
  started_order = h.started_order ∙ ap (λ v. q.finished ++ v) (sym e);
}

do_work-IsFifo : (w : Worker) (q : CallbackQueue) → q.worker ≡ w → IsFifo q → IsFifo (do_work w q)
unfolding do_work
do_work-IsFifo at_head q e h =
    moved-IsFifo q _ (elim (Bool-cases q.quit) [ inl b ↦ rw (b, e) | inr b ↦ rw (b, e) ]) h
do_work-IsFifo acquiring q e h = moved-IsFifo q testing (rw e) h
do_work-IsFifo testing q e h =
    moved-IsFifo q _
      (elim (Bool-cases (q.quit || not (is_empty q.callback_queue))) [
        | inl b ↦ rw (b, e)
        | inr b ↦ rw (b, e)
      ])
      h
do_work-IsFifo tested q e h = moved-IsFifo q asleep (rw e) h
do_work-IsFifo asleep q e h = h
do_work-IsFifo woken q e h = moved-IsFifo q testing (rw e) h
do_work-IsFifo past_wait q e h = take_front-IsFifo q.quit q.callback_queue q refl e h
do_work-IsFifo (running cb) q e h = record {
  pushed_order = h.pushed_order;
  started_order =
      h.started_order
      ∙ ap (λ v. q.finished ++ current v) e
      ∙ sym (append-nil (q.finished ++ (cb ∷ [])));
}
do_work-IsFifo stopped q e h = h

push_picked-IsFifo :
    (o : Option (CallbackQueue.Callback × List CallbackQueue.Callback)) (q : CallbackQueue)
    → IsFifo q
    → IsFifo (push_picked o q)
unfolding push_picked
push_picked-IsFifo none q h = h
push_picked-IsFifo (some (cb, others)) q h = record {
  pushed_order =
      ap (λ v. v ++ (cb ∷ [])) h.pushed_order ∙ append_assoc q.started q.callback_queue (cb ∷ []);
  started_order = h.started_order ∙ ap (λ v. q.finished ++ v) (sym (current-wake q.worker));
}

step-IsFifo : (e : Event) (q : CallbackQueue) → IsFifo q → IsFifo (step e q)
unfolding step admit_callback push_callback
step-IsFifo work q h = do_work-IsFifo q.worker q refl h
step-IsFifo spurious_wakeup q h = moved-IsFifo q _ (current-wake q.worker) h
step-IsFifo (admit cb) q h =
    elim q.quit
      as (λ b. IsFifo (if b then q else record q { admitted = q.admitted ++ (cb ∷ []) })) [
        | true ↦ h
        | false ↦ record { pushed_order = h.pushed_order; started_order = h.started_order }
      ]
step-IsFifo (push n) q h = elim (Bool-cases (holds_lock q.worker)) [
  | inl b ↦ rw b h
  | inr b ↦ rw b (push_picked-IsFifo (pick n q.admitted) q h)
]
step-IsFifo set_quit q h = record { pushed_order = h.pushed_order; started_order = h.started_order }
step-IsFifo notify_all q h = moved-IsFifo q _ (current-wake q.worker) h

-- However the threads take turns, the callbacks that were started are the first of those that were
-- pushed, in the same order and each once, the rest wait in the queue in that order, and all
-- started ones are finished but the one that is running; if that is so at the start.
pub run-IsFifo : (es : List Event) (q : CallbackQueue) → IsFifo q → IsFifo (run es q)
unfolding run
run-IsFifo [] q h = h
run-IsFifo (e ∷ es) q h = run-IsFifo es (step e q) (step-IsFifo e q h)

take_front-quit :
    (b : Bool) (cbs : List CallbackQueue.Callback) (q : CallbackQueue)
    → b ≡ true
    → ((take_front b cbs q).started ≡ q.started) × ((take_front b cbs q).quit ≡ q.quit)
unfolding take_front
take_front-quit true cbs q e = (refl, refl)
take_front-quit false [] q e = (refl, refl)
take_front-quit false (cb ∷ cbs) q e = cc

do_work-quit :
    (w : Worker) (q : CallbackQueue)
    → q.quit ≡ true
    → ((do_work w q).started ≡ q.started) × ((do_work w q).quit ≡ true)
unfolding do_work take_front
do_work-quit at_head q h = (refl, h)
do_work-quit acquiring q h = (refl, h)
do_work-quit testing q h = (refl, h)
do_work-quit tested q h = (refl, h)
do_work-quit asleep q h = (refl, h)
do_work-quit woken q h = (refl, h)
do_work-quit past_wait q h = let t = take_front-quit q.quit q.callback_queue q h in (t.0, t.1 ∙ h)
do_work-quit (running cb) q h = (refl, h)
do_work-quit stopped q h = (refl, h)

step-quit :
    (e : Event) (q : CallbackQueue)
    → q.quit ≡ true
    → ((step e q).started ≡ q.started) × ((step e q).quit ≡ true)
unfolding step admit_callback push_callback push_picked
step-quit work q h = do_work-quit q.worker q h
step-quit spurious_wakeup q h = (refl, h)
step-quit (admit cb) q h = ground arith
step-quit (push n) q h = ground arith
step-quit set_quit q h = (refl, refl)
step-quit notify_all q h = (refl, h)

-- Once stop has set the flag, no callback is started any more, whatever is queued or pushed.
pub run-quit :
    (es : List Event) (q : CallbackQueue) → q.quit ≡ true → (run es q).started ≡ q.started
unfolding run
run-quit [] q h = refl
run-quit (e ∷ es) q h = run-quit es (step e q) (step-quit e q h).1 ∙ (step-quit e q h).0
