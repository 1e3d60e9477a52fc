-- ===== src/CallbackQueue.antt =====
-- The callback queue (cobridge_base/include/callback_queue.hpp) with one worker thread, as the
-- server and the ROS 2 bridge make it. An event is one step of a thread between two points where
-- another thread can come in: the worker, a caller of add_callback or a caller of stop.
pub mod Awake
pub mod Progress
pub mod Order
pub mod Liveness
pub mod Ending
pub mod Stopping
use co_bridge.Base.{
  ℕ, zero, suc, ◌+◌, List, [], ◌∷◌, ◌++◌, Bool, true, false, ◌||◌, Option, none, some,
  if◌then◌else◌, not, is_empty,
}

-- A name for a std::function<void()>.
abbrev pub Callback : Type 0
Callback = ℕ

-- Where the worker stands in do_work.
pub data Worker : Type 0 where
  at_head : Worker  -- the test of the loop
  acquiring : Worker  -- before the lock is taken
  testing : Worker  -- holds the lock, before the predicate of `wait`
  tested : Worker  -- holds the lock, the predicate was false
  asleep : Worker  -- blocked in `wait`, without the lock
  woken : Worker  -- notified, before the lock is taken again
  past_wait : Worker  -- holds the lock, after `wait`
  running : Callback → Worker
  stopped : Worker

abbrev pub holds_lock : Worker → Bool
holds_lock at_head = false
holds_lock acquiring = false
holds_lock testing = true
holds_lock tested = true
holds_lock asleep = false
holds_lock woken = false
holds_lock past_wait = true
holds_lock (running cb) = false
holds_lock stopped = false

-- `admitted` are the callbacks of those callers of add_callback that have seen `_quit` as false and
-- wait for the lock. `pushed`, `started` and `finished` record what has happened, in its order.
pub record CallbackQueue : Type 0 where
  pub quit : Bool
  pub callback_queue : List Callback
  pub worker : Worker
  pub admitted : List Callback
  pub pushed : List Callback
  pub started : List Callback
  pub finished : List Callback

abbrev pub new_queue : CallbackQueue
new_queue = record {
  quit = false;
  callback_queue = [];
  worker = at_head;
  admitted = [];
  pushed = [];
  started = [];
  finished = [];
}

pub data Event : Type 0 where
  work : Event
  spurious_wakeup : Event
  admit : Callback → Event
  push : ℕ → Event
  set_quit : Event
  notify_all : Event

abbrev pub wake : Worker → Worker
wake at_head = at_head
wake acquiring = acquiring
wake testing = testing
wake tested = tested
wake asleep = woken
wake woken = woken
wake past_wait = past_wait
wake (running cb) = running cb
wake stopped = stopped

-- After `wait`: the callback at the front is taken, unless the queue is stopped.
unfoldable pub take_front : Bool → List Callback → CallbackQueue → CallbackQueue
take_front true cbs q = record q { worker = stopped }
take_front false [] q = record q { worker = at_head }
take_front false (cb ∷ cbs) q = record q {
  worker = running cb;
  callback_queue = cbs;
  started = q.started ++ (cb ∷ []);
}

-- An exception of a callback is caught and logged.
unfoldable pub do_work : Worker → CallbackQueue → CallbackQueue
unfolding take_front
do_work at_head q = record q { worker = if q.quit then stopped else acquiring }
do_work acquiring q = record q { worker = testing }
do_work testing q = record q {
  worker = if q.quit || not (is_empty q.callback_queue) then past_wait else tested;
}
do_work tested q = record q { worker = asleep }
do_work asleep q = q
do_work woken q = record q { worker = testing }
do_work past_wait q = take_front q.quit q.callback_queue q
do_work (running cb) q = record q { worker = at_head; finished = q.finished ++ (cb ∷ []) }
do_work stopped q = q

-- A caller that was admitted, by its position, and the others.
abbrev pub pick : ℕ → List Callback → Option (Callback × List Callback)
pick n [] = none
pick zero (cb ∷ cbs) = some (cb, cbs)
pick (suc n) (cb ∷ cbs) = elim (pick n cbs) [ none ↦ none | some p ↦ some (p.0, cb ∷ p.1) ]

-- `push_back` and `notify_one`, under the lock.
unfoldable pub push_picked : Option (Callback × List Callback) → CallbackQueue → CallbackQueue
push_picked none q = q
push_picked (some (cb, others)) q = record q {
  admitted = others;
  callback_queue = q.callback_queue ++ (cb ∷ []);
  pushed = q.pushed ++ (cb ∷ []);
  worker = wake q.worker;
}

unfoldable pub admit_callback : Callback → CallbackQueue → CallbackQueue
admit_callback cb q = if q.quit then q else record q { admitted = q.admitted ++ (cb ∷ []) }

unfoldable pub push_callback : ℕ → CallbackQueue → CallbackQueue
unfolding push_picked
push_callback n q = if holds_lock q.worker then q else push_picked (pick n q.admitted) q

-- An event that cannot happen changes nothing. The worker takes the lock at once: each other holder
-- gives it back within its own step. `_quit = true` and `notify_all` of stop do not take the lock.
unfoldable pub step : Event → CallbackQueue → CallbackQueue
unfolding do_work admit_callback push_callback
step work q = do_work q.worker q
step spurious_wakeup q = record q { worker = wake q.worker }
step (admit cb) q = admit_callback cb q
step (push n) q = push_callback n q
step set_quit q = record q { quit = true }
step notify_all q = record q { worker = wake q.worker }

unfoldable pub run : List Event → CallbackQueue → CallbackQueue
unfolding step
run [] q = q
run (e ∷ es) q = run es (step e q)

-- How often the worker has its turn.
abbrev pub turns : List Event → ℕ
turns [] = 0
turns (work ∷ es) = turns es + 1
turns (spurious_wakeup ∷ es) = turns es
turns (admit cb ∷ es) = turns es
turns (push n ∷ es) = turns es
turns (set_quit ∷ es) = turns es
turns (notify_all ∷ es) = turns es
