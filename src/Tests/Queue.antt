-- ===== src/Tests/Queue.antt =====
-- The callback queue on a few schedules.
use co_bridge.Base.{◌+◌, ◌≤◌, ◌≡◌, refl, List, [], ◌∷◌, length, arith}
use co_bridge.CallbackQueue.{
  CallbackQueue, new_queue, Event, work, admit, push, set_quit, notify_all, run, asleep, stopped,
}
use co_bridge.CallbackQueue.Order.{IsFifo, run-IsFifo}
use co_bridge.CallbackQueue.Liveness.{run-starts}
use co_bridge.CallbackQueue.Stopping.{stop-ends, stop-hangs}

-- Two callers are let in, and the second one pushes first.
abbrev two_callers : List Event
two_callers =
    admit 1
    ∷ admit 2
    ∷ push 1
    ∷ work
    ∷ work
    ∷ work
    ∷ work
    ∷ push 0
    ∷ work
    ∷ work
    ∷ work
    ∷ work
    ∷ work
    ∷ []

two_callers_order : (run two_callers new_queue).started ≡ 2 ∷ 1 ∷ []
unfolding run
two_callers_order = refl

run-IsFifo_example : IsFifo (run two_callers new_queue)
run-IsFifo_example =
    run-IsFifo two_callers new_queue (record { pushed_order = refl; started_order = refl })

-- The worker sleeps on an empty queue when a callback comes.
abbrev pushed_late : List Event
pushed_late = work ∷ work ∷ work ∷ work ∷ admit 5 ∷ push 0 ∷ []

run-starts_example :
    length (run pushed_late new_queue).started + 1
    ≤ length (run (work ∷ work ∷ work ∷ work ∷ work ∷ []) (run pushed_late new_queue)).started
unfolding run
run-starts_example =
    run-starts 1 pushed_late (work ∷ work ∷ work ∷ work ∷ work ∷ []) tt tt (omega arith)
      (omega arith)

-- The worker of a new queue has seen that there is nothing to do.
abbrev idle : CallbackQueue
idle = run (work ∷ work ∷ work ∷ []) new_queue

-- The worker falls asleep between the flag and the notification.
stop-ends_example :
    (run
      (notify_all ∷ work ∷ work ∷ work ∷ [])
      (run (set_quit ∷ work ∷ admit 7 ∷ work ∷ []) idle)).worker
    ≡ stopped
unfolding run
stop-ends_example =
    stop-ends (work ∷ admit 7 ∷ work ∷ []) (work ∷ work ∷ work ∷ []) idle (cc) (omega arith)

stop-hangs_example : (run (set_quit ∷ notify_all ∷ work ∷ work ∷ work ∷ []) idle).worker ≡ asleep
unfolding run
stop-hangs_example = stop-hangs (work ∷ work ∷ []) idle refl refl tt
