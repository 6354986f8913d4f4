-- ===== src/Worker/Tests.antt =====
-- A worker that is destroyed while it works, and one that is started again.
use quai_gpu_miner_archive.Worker.{
  WorkerState, Place, Worker, new_thread, Reachable, thread_step, trigger_stop_working, begins,
  then_step, thread_steps, triggers, destroys, starting, started, stopping, stopped, killing,
  claiming, working, leaving, restoring, waiting, finished,
}
use quai_gpu_miner_archive.Worker.Killing.{thread_steps_of, destroyed-finished}
use quai_gpu_miner_archive.Prelude.{◌≡◌, refl, Bool, true, false}

-- A work loop that ends when it should stop.
abbrev obeys : WorkerState → Bool
obeys started = false
obeys s = true

abbrev at : WorkerState → Place → Bool → Worker
at s p destroyed = record { shared = (s, p); destroyed = destroyed }

at_work : Reachable (at started working false)
unfolding thread_step
at_work =
    then_step (then_step begins (thread_steps obeys new_thread))
      (thread_steps obeys (at starting claiming false))

destroyed-finished_example : (thread_steps_of obeys 6 (killing, working)).1 ≡ finished
destroyed-finished_example =
    destroyed-finished obeys (at killing working true) refl
      (then_step at_work (destroys (at started working false) refl)) refl

at_rest : Reachable (at stopped waiting false)
unfolding thread_step trigger_stop_working
at_rest =
    then_step
      (then_step
        (then_step (then_step at_work (triggers (at started working false) refl))
          (thread_steps obeys (at stopping working false)))
        (thread_steps obeys (at stopping leaving false)))
      (thread_steps obeys (at stopped (restoring stopping) false))
