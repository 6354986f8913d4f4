-- ===== src/Stratum/Timeouts.antt =====
-- How long the client waits.
use quai_gpu_miner_archive.Stratum.{StratumClient, returned}
use quai_gpu_miner_archive.Stratum.Pleas.{enqueue_response_plea, dequeue_response_plea}
use quai_gpu_miner_archive.Stratum.Timer.{workloop_timer_elapsed, rearm, keep_alive}
use quai_gpu_miner_archive.Stratum.Connecting.{start_connect}
use quai_gpu_miner_archive.Prelude.{
  ℕ, ◌+◌, ◌-◌, ◌*◌, ◌≡◌, false, none, some, List, [], ◌∷◌, arith, leb, if◌then◌else◌,
}

-- Later by some time.
abbrev pub at_time : ℕ → StratumClient → StratumClient
at_time now c = record c { now = now }

-- A client that is not connecting, has no session and has an endpoint begins to connect it, and waits for
-- the connect for `t` milliseconds. A tick of the timer then closes the socket, and does not start the
-- timer again, as long as `t` is within the timeout of answers. Beyond it the tick leaves the connect to
-- go on and starts the timer again.
pub workloop_timer_elapsed-start_connect :
    (c : StratumClient) (t endpoint : ℕ) (rest : List ℕ)
    → c.connecting ≡ false
    → c.session ≡ none
    → c.endpoints ≡ endpoint ∷ rest
    → let waiting = at_time (c.now + t) (start_connect c) in
      workloop_timer_elapsed false waiting ≡ (
        if leb t (c.responsetimeout * 1000)
        then returned (record waiting { socket = some false })
        else rearm waiting)
unfolding start_connect workloop_timer_elapsed keep_alive
workloop_timer_elapsed-start_connect c t endpoint rest calm no_session left =
    ground (arith, calm, no_session, left, waited)
  where
    waited : (c.now + t) - c.now ≡ t
    waited = omega arith

-- Two requests that are sent at `t1` and `t2` on a client that waits for nothing: the first answer's delay counts
-- from `t1`, and the second's from `t1` too.
pub dequeue_response_plea-second :
    (c : StratumClient) (t1 t2 t3 t4 : ℕ)
    → c.response_pleas_count ≡ 0
    → c.response_plea_times ≡ []
    → let sent = enqueue_response_plea (at_time t2 (enqueue_response_plea (at_time t1 c))) in
      let first = dequeue_response_plea (at_time t3 sent) in
      (first.0 ≡ t3 - t1) × ((dequeue_response_plea (at_time t4 first.1)).0 ≡ t4 - t1)
dequeue_response_plea-second c t1 t2 t3 t4 none_waits no_times = ground arith
