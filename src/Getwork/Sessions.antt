-- ===== src/Getwork/Sessions.antt =====
-- What holds of a client throughout: each operation keeps it.
use quai_gpu_miner_archive.Getwork.{
  GetworkClient, Outcome, and_then, attempt, returned, thrown, crashed, Text, Request, Solution,
  Session, ErrorCode, no_error, operation_aborted, other_error,
}
use quai_gpu_miner_archive.Getwork.Connecting.{
  connect, disconnect, begin_connect, pop_endpoint, send, establish, write_line, handle_connect,
  handle_write, handle_resolve, getwork_timer_elapsed, get_work,
}
use quai_gpu_miner_archive.Getwork.Submitting.{
  submit_hashrate, submit_solution, hashrate_request, solution_request, raise_max_id,
}
use quai_gpu_miner_archive.Prelude.{
  ℕ, ◌-◌, ◌/◌, ◌≡◌, Bool, true, false, Option, none, some, List, [], arith, ltb, if-both, drop,
}

abbrev has_session : Option Session → Bool
has_session none = false
has_session (some session) = true

module _ {Value : Type 0} where
  -- The client is connected when it has a session, and nothing waits to be sent while no exchange is
  -- pending.
  abbrev pub IsSound : GetworkClient Value → Type 0
  IsSound c = (c.connected ≡ has_session c.session) × (c.tx_pending ≡ false → c.tx_queue ≡ [])

  -- What is left of the client, if it is not undefined.
  abbrev pub Leaves : Outcome (GetworkClient Value) → Type 0
  Leaves (returned c) = IsSound c
  Leaves (thrown c) = IsSound c
  Leaves crashed = Unit

  pub Leaves-and_then :
      (o : Outcome (GetworkClient Value))
      (next : GetworkClient Value → Outcome (GetworkClient Value))
      → Leaves o
      → ((c : GetworkClient Value) → IsSound c → Leaves (next c))
      → Leaves (and_then o next)
  Leaves-and_then (returned c) next h k = k c h
  Leaves-and_then (thrown c) next h k = h
  Leaves-and_then crashed next h k = tt

  pub Leaves-attempt :
      {A : Type 0} (o : Option A) (c : GetworkClient Value)
      (next : A → Outcome (GetworkClient Value))
      → IsSound c
      → ((a : A) → Leaves (next a))
      → Leaves (attempt o c next)
  Leaves-attempt none c next h k = h
  Leaves-attempt (some a) c next h k = k a

  pub Leaves-disconnect : (c : GetworkClient Value) → Leaves (disconnect c)
  unfolding disconnect
  Leaves-disconnect c = ground arith

  pub Leaves-begin_connect : (c : GetworkClient Value) → IsSound c → Leaves (begin_connect c)
  unfolding begin_connect
  Leaves-begin_connect c h = ground (arith, Leaves-disconnect c)

  Leaves-pop_endpoint : (c : GetworkClient Value) → IsSound c → Leaves (pop_endpoint c)
  Leaves-pop_endpoint c h = ground arith

  Leaves-send : (line : Text) (c : GetworkClient Value) → IsSound c → Leaves (send line c)
  unfolding send
  Leaves-send line c h = ground arith

  -- A connection that failed is followed by the next.
  Leaves-next :
      (c : GetworkClient Value) → IsSound c → Leaves (and_then (pop_endpoint c) begin_connect)
  Leaves-next c h =
      Leaves-and_then (pop_endpoint c) begin_connect (Leaves-pop_endpoint c h) Leaves-begin_connect

  IsSound-establish : (c : GetworkClient Value) → IsSound c → IsSound (establish c)
  unfolding establish
  IsSound-establish c h = ground arith

  pub Leaves-handle_write :
      (error : ErrorCode) (written : ℕ) (c : GetworkClient Value)
      → IsSound c
      → Leaves (handle_write error written c)
  unfolding handle_write
  Leaves-handle_write no_error written c h = h
  Leaves-handle_write operation_aborted written c h = h
  Leaves-handle_write other_error written c h =
      Leaves-next (record c { request = drop written c.request }) h

  module _ (parse : Text → Bool × Value) where
    IsSound-write_line : (c : GetworkClient Value) → IsSound c → IsSound (write_line parse c)
    unfolding write_line
    IsSound-write_line c h = ground arith

    pub Leaves-handle_connect :
        (error : ErrorCode) (opened : Bool) (c : GetworkClient Value)
        → IsSound c
        → Leaves (handle_connect parse error opened c)
    unfolding handle_connect
    Leaves-handle_connect no_error true c h =
        IsSound-write_line _ (IsSound-establish (record c { socket_open = true }) h)
    Leaves-handle_connect no_error false c h = Leaves-next (record c { socket_open = false }) h
    Leaves-handle_connect operation_aborted opened c h = h
    Leaves-handle_connect other_error opened c h = Leaves-next (record c { socket_open = opened }) h

  module _ (write : Request → Text) where
    pub Leaves-connect :
        (address : ℕ) (c : GetworkClient Value) → IsSound c → Leaves (connect write address c)
    unfolding connect
    Leaves-connect address c h =
        if-both Leaves c.connecting _ _ h
          (if-both Leaves c.connection.named _ _ h (Leaves-send (write get_work) _ h))

    pub Leaves-handle_resolve :
        (found : Option (List ℕ)) (c : GetworkClient Value)
        → IsSound c
        → Leaves (handle_resolve write found c)
    unfolding handle_resolve
    Leaves-handle_resolve none c h = Leaves-disconnect c
    Leaves-handle_resolve (some found) c h = Leaves-send (write get_work) _ h

    pub Leaves-timer :
        (error : Bool) (c : GetworkClient Value)
        → IsSound c
        → Leaves (getwork_timer_elapsed write error c)
    unfolding getwork_timer_elapsed
    Leaves-timer error c h = if-both Leaves error _ _ h (
        if-both Leaves (ltb c.worktimeout ((c.now - c.current_tstamp) / 1000)) _ _
          (Leaves-and_then (pop_endpoint c) disconnect (Leaves-pop_endpoint c h)
            (λ d k. Leaves-disconnect d))
          (Leaves-send (write get_work) c h))

    pub Leaves-submit_hashrate :
        (rate : ℕ) (id : Text) (c : GetworkClient Value)
        → IsSound c
        → Leaves (submit_hashrate write rate id c)
    unfolding submit_hashrate
    Leaves-submit_hashrate rate id c h =
        ground (arith, Leaves-send (write (hashrate_request rate id)) c h)

    pub Leaves-submit_solution :
        (solution : Solution) (c : GetworkClient Value)
        → IsSound c
        → Leaves (submit_solution write solution c)
    unfolding submit_solution
    Leaves-submit_solution solution c h =
        ground (arith, Leaves-send (write (solution_request solution)) (raise_max_id solution c) h)
