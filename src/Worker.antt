-- ===== src/Worker.antt =====
-- `Worker` of libdevcore/Worker.h and libdevcore/Worker.cpp: the thread that works, the threads that
-- start, stop and destroy it, and the atomic state between them. Every access of `m_state` is one step.
-- compare_exchange_weak does not fail for no reason. Whether the work ends by a return or by an
-- exception makes no difference here; `g_exitOnError` is off.
pub mod Killing
mod Tests
use quai_gpu_miner_archive.Prelude.{◌≡◌, Bool, true, false, if◌then◌else◌}

pub data WorkerState : Type 0 where
  starting : WorkerState
  started : WorkerState
  stopping : WorkerState
  stopped : WorkerState
  killing : WorkerState

-- Where the thread is: at the test of its outer loop, at the exchange for Started, in `workLoop`, at the
-- exchange for Stopped, between that and the second exchange with what the first gave, in its inner
-- loop, or at its end.
pub data Place : Type 0 where
  testing : Place
  claiming : Place
  working : Place
  leaving : Place
  restoring : WorkerState → Place
  waiting : Place
  finished : Place

unfoldable pub restore : WorkerState → WorkerState → WorkerState
restore killing s = killing
restore starting s = starting
restore started s = s
restore stopping s = s
restore stopped s = s

unfoldable pub claim : WorkerState → WorkerState
claim starting = started
claim started = started
claim stopping = stopping
claim stopped = stopped
claim killing = killing

-- The thread's next access of the state. `workLoop` is a method of the classes that derive from Worker:
-- in it an access is a read of the state by shouldStop, and `returns` tells whether the loop ends on
-- what is read.
unfoldable pub thread_step : (WorkerState → Bool) → WorkerState × Place → WorkerState × Place
unfolding claim restore
thread_step returns (killing, testing) = (killing, finished)
thread_step returns (starting, testing) = (starting, claiming)
thread_step returns (started, testing) = (started, claiming)
thread_step returns (stopping, testing) = (stopping, claiming)
thread_step returns (stopped, testing) = (stopped, claiming)
thread_step returns (s, claiming) = (claim s, working)
thread_step returns (s, working) = (s, if returns s then leaving else working)
thread_step returns (s, leaving) = (stopped, restoring s)
thread_step returns (s, restoring ex) = (restore ex s, waiting)
thread_step returns (stopped, waiting) = (stopped, waiting)
thread_step returns (starting, waiting) = (starting, testing)
thread_step returns (started, waiting) = (started, testing)
thread_step returns (stopping, waiting) = (stopping, testing)
thread_step returns (killing, waiting) = (killing, testing)
thread_step returns (s, finished) = (s, finished)

-- The exchange of `startWorking` when there is a thread.
unfoldable pub start_working : WorkerState → WorkerState
start_working stopped = starting
start_working starting = starting
start_working started = started
start_working stopping = stopping
start_working killing = killing

-- The exchange of `triggerStopWorking` and `stopWorking`.
unfoldable pub trigger_stop_working : WorkerState → WorkerState
trigger_stop_working started = stopping
trigger_stop_working starting = starting
trigger_stop_working stopping = stopping
trigger_stop_working stopped = stopped
trigger_stop_working killing = killing

-- The state, the thread's place, and whether the destructor has the lock, which it keeps.
pub record Worker : Type 0 where
  pub shared : WorkerState × Place
  pub destroyed : Bool

-- `startWorking` of a worker that has no thread.
abbrev pub new_thread : Worker
new_thread = record { shared = (starting, testing); destroyed = false }

pub data Step : Worker → Worker → Type 0 where
  thread_steps :
      (returns : WorkerState → Bool) (w : Worker)
      → Step w (record w { shared = thread_step returns w.shared })
  starts :
      (w : Worker)
      → w.destroyed ≡ false
      → Step w (record w { shared = (start_working w.shared.0, w.shared.1) })
  triggers :
      (w : Worker)
      → w.destroyed ≡ false
      → Step w (record w { shared = (trigger_stop_working w.shared.0, w.shared.1) })
  destroys :
      (w : Worker)
      → w.destroyed ≡ false
      → Step w (record { shared = (killing, w.shared.1); destroyed = true })

pub data Reachable : Worker → Type 0 where
  begins : Reachable new_thread
  then_step : {w w' : Worker} → Reachable w → Step w w' → Reachable w'
