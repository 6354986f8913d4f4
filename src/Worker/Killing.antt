-- ===== src/Worker/Killing.antt =====
-- The destructor of libdevcore/Worker.cpp joins the thread.
use quai_gpu_miner_archive.Worker.{
  begins, then_step, thread_steps, starts, triggers, destroys, WorkerState, Place, Worker,
  Reachable, thread_step, start_working, trigger_stop_working, starting, started, stopping, stopped,
  killing, restoring, working, leaving, testing, claiming, waiting, finished,
}
use quai_gpu_miner_archive.Prelude.{
  ℕ, zero, suc, ◌≤◌, ◌≡◌, refl, sym, subst, Bool, true, false, arith,
}

-- What is possible: no start is in flight while the thread works or leaves, no Starting is restored, and
-- a kill is in the state or is about to be restored.
sound : Bool → WorkerState → Place → Bool
sound true killing (restoring starting) = false
sound true killing p = true
sound true stopped (restoring killing) = true
sound true s p = false
sound false killing p = false
sound false s (restoring starting) = false
sound false s (restoring killing) = false
sound false s finished = false
sound false starting working = false
sound false starting leaving = false
sound false stopped working = false
sound false stopped leaving = false
sound false stopped testing = false
sound false stopped claiming = false
sound false s p = true

thread_step-sound :
    (returns : WorkerState → Bool) (k : Bool) (s : WorkerState) (p : Place)
    → sound k s p ≡ true
    → sound k (thread_step returns (s, p)).0 (thread_step returns (s, p)).1 ≡ true
unfolding sound thread_step
thread_step-sound returns k s p h = ground arith

start_working-sound :
    (s : WorkerState) (p : Place) → sound false s p ≡ true → sound false (start_working s) p ≡ true
unfolding sound start_working
start_working-sound s p h = ground arith

trigger_stop_working-sound :
    (s : WorkerState) (p : Place)
    → sound false s p ≡ true
    → sound false (trigger_stop_working s) p ≡ true
unfolding sound trigger_stop_working
trigger_stop_working-sound s p h = ground arith

killing-sound : (s : WorkerState) (p : Place) → sound false s p ≡ true → sound true killing p ≡ true
unfolding sound
killing-sound s p h = ground arith

abbrev IsSound : Worker → Type 0
IsSound w = sound w.destroyed w.shared.0 w.shared.1 ≡ true

-- A call of another thread finds the lock free only before the destructor.
before_destroyed :
    (w : Worker) (s : WorkerState) (p : Place)
    → w.destroyed ≡ false
    → sound false s p ≡ true
    → sound w.destroyed s p ≡ true
before_destroyed w s p free h = subst (λ b. sound b s p ≡ true) (sym free) h

at_free : (w : Worker) → w.destroyed ≡ false → IsSound w → sound false w.shared.0 w.shared.1 ≡ true
at_free w free h = subst (λ b. sound b w.shared.0 w.shared.1 ≡ true) free h

Reachable_worker-IsSound : (w : Worker) → Reachable w → IsSound w
unfolding sound
Reachable_worker-IsSound _ begins = refl
Reachable_worker-IsSound _ (then_step r (thread_steps returns w)) =
    thread_step-sound returns w.destroyed w.shared.0 w.shared.1 (Reachable_worker-IsSound w r)
Reachable_worker-IsSound _ (then_step r (starts w free)) =
    before_destroyed w (start_working w.shared.0) w.shared.1 free
      (start_working-sound w.shared.0 w.shared.1 (at_free w free (Reachable_worker-IsSound w r)))
Reachable_worker-IsSound _ (then_step r (triggers w free)) =
    before_destroyed w (trigger_stop_working w.shared.0) w.shared.1 free (
      trigger_stop_working-sound w.shared.0 w.shared.1
        (at_free w free (Reachable_worker-IsSound w r)))
Reachable_worker-IsSound _ (then_step r (destroys w free)) =
    killing-sound w.shared.0 w.shared.1 (at_free w free (Reachable_worker-IsSound w r))

-- The thread's next `n` accesses of the state, while no other thread changes it.
pub thread_steps_of : (WorkerState → Bool) → ℕ → WorkerState × Place → WorkerState × Place
thread_steps_of returns zero w = w
thread_steps_of returns (suc n) w = thread_steps_of returns n (thread_step returns w)

killed_steps :
    (returns : WorkerState → Bool) (s : WorkerState) (p : Place)
    → returns killing ≡ true
    → sound true s p ≡ true
    → (thread_steps_of returns 6 (s, p)).1 ≡ finished
unfolding sound thread_step thread_steps_of
killed_steps returns s p ends h = ground arith

started_steps :
    (returns : WorkerState → Bool) (p : Place)
    → sound false stopped p ≡ true
    → (n : ℕ) × (n ≤ 4) × (thread_steps_of returns n (starting, p) ≡ (started, working))
unfolding sound thread_step thread_steps_of
started_steps returns (restoring starting) h = absurd (cc h)
started_steps returns (restoring killing) h = absurd (cc h)
started_steps returns (restoring started) h = (4, omega arith, refl)
started_steps returns (restoring stopping) h = (4, omega arith, refl)
started_steps returns (restoring stopped) h = (4, omega arith, refl)
started_steps returns waiting h = (3, omega arith, refl)
started_steps returns testing h = absurd (cc h)
started_steps returns claiming h = absurd (cc h)
started_steps returns working h = absurd (cc h)
started_steps returns leaving h = absurd (cc h)
started_steps returns finished h = absurd (cc h)

-- The thread of a destroyed worker ends, if its `workLoop` returns when it reads Killing. After any
-- interleaving of the thread's accesses with starts and stops, whatever `workLoop` does on what it read
-- before, once the destructor has set Killing, the thread comes to its end in at most six of its own
-- accesses of the state.
pub destroyed-finished :
    (returns : WorkerState → Bool) (w : Worker)
    → returns killing ≡ true
    → Reachable w
    → w.destroyed ≡ true
    → (thread_steps_of returns 6 w.shared).1 ≡ finished
destroyed-finished returns w ends r killed =
    killed_steps returns w.shared.0 w.shared.1 ends
      (subst (λ b. sound b w.shared.0 w.shared.1 ≡ true) killed (Reachable_worker-IsSound w r))

-- A start of a stopped worker is not lost. After any interleaving of the thread's accesses with starts
-- and stops, before the destructor, a worker that has stopped and is started is at work again, in the
-- state Started, after at most four accesses of the thread.
pub start_working-working :
    (returns : WorkerState → Bool) (w : Worker)
    → Reachable w
    → w.destroyed ≡ false
    → w.shared.0 ≡ stopped
    → (n : ℕ) × (n ≤ 4)
      × (thread_steps_of returns n (start_working w.shared.0, w.shared.1) ≡ (started, working))
unfolding start_working
start_working-working returns w r free at_rest =
    let h = at_free w free (Reachable_worker-IsSound w r) in
    subst
      (λ s.
        (n : ℕ) × (n ≤ 4)
        × (thread_steps_of returns n (start_working s, w.shared.1) ≡ (started, working)))
      (sym at_rest)
      (started_steps returns w.shared.1 (subst (λ s. sound false s w.shared.1 ≡ true) at_rest h))
