-- ===== src/Stratum/Sessions/Reachable.antt =====
-- The steps that a client can take, and that it stays consistent.
use quai_gpu_miner_archive.Stratum.Messages.{is_invalid, Message, read_message}
use quai_gpu_miner_archive.Stratum.{
  crashed, StratumClient, Json, Text, returned, Solution, Outcome, and_then, is_connected, caught,
  thrown, is_authorized, escaped,
}
use quai_gpu_miner_archive.Stratum.Sessions.{
  HasMode, IsConsistent, Leaves, Leaves-attempt, Leaves-with_session, IsConsistent-send,
  IsConsistent-enqueue, IsConsistent-connect, IsConsistent-disconnect,
  IsConsistent-disconnect_finalize, IsConsistent-start_connect, IsConsistent-resolve_handler,
  IsConsistent-on_send, connect_handler-Leaves, workloop_timer_elapsed-Leaves,
}
use quai_gpu_miner_archive.Stratum.Sessions.Replies.{process_reply-Leaves}
use quai_gpu_miner_archive.Stratum.Sessions.Notices.{process_notice-Leaves}
use quai_gpu_miner_archive.Stratum.Connecting.{
  connect, disconnect, disconnect_finalize, start_connect, resolve_handler, connect_handler,
  on_ssl_shutdown_completed,
}
use quai_gpu_miner_archive.Stratum.Sending.{on_send_socket_data_completed, WriteError}
use quai_gpu_miner_archive.Stratum.Timer.{workloop_timer_elapsed}
use quai_gpu_miner_archive.Stratum.Receiving.{
  process_message, process_response, process_line, process_lines, on_recv_socket_data_completed,
  split_lines,
}
use quai_gpu_miner_archive.Stratum.Submitting.{submit_hashrate, submit_solution, solution_request}
use quai_gpu_miner_archive.Ethash.Hash.{Hash}
use quai_gpu_miner_archive.Stratum.Logins.{quit}
use quai_gpu_miner_archive.Stratum.Texts.{codes}
use quai_gpu_miner_archive.Prelude.{
  ℕ, ◌+◌, ◌≡◌, refl, sym, subst, Bool, true, false, not, ◌&&◌, Option, none, some, List, [], ◌∷◌,
  ◌++◌, arith, ◌==◌, if-true, if-both, length,
}

submit_hashrate-Leaves :
    (rate : ℕ) (id : Text) (c : StratumClient) → IsConsistent c → Leaves (submit_hashrate rate id c)
unfolding submit_hashrate
submit_hashrate-Leaves rate id c h = if-both Leaves (not (is_connected c)) _ _ h (
    if-both Leaves (c.connection.stratum_mode == 3) _ _
      (Leaves-with_session c _ h (λ session can. IsConsistent-send _ c h))
      (IsConsistent-send _ c h))

submit_solution-Leaves :
    (solution : Solution) (c : StratumClient) → IsConsistent c → Leaves (submit_solution solution c)
unfolding submit_solution
submit_solution-Leaves solution c h = if-both Leaves (not (is_authorized c)) _ _ h (
    Leaves-with_session c _ h (λ session can.
      Leaves-attempt (solution_request c.connection session.worker_id solution) _ _ h
        (λ r. IsConsistent-send _ _ (IsConsistent-enqueue c h))))

and_last : (a b c : Bool) → (a && b && c) ≡ true → c ≡ true
and_last a b c h = ground arith

-- The state that a step leaves.
pub data LeftBy : Outcome → StratumClient → Type 0 where
  by_return : (c : StratumClient) → LeftBy (returned c) c
  by_exception : (c : StratumClient) → LeftBy (thrown c) c
  by_escape : (c : StratumClient) → LeftBy (escaped c) c

LeftBy-IsConsistent : {o : Outcome} {c : StratumClient} → LeftBy o c → Leaves o → IsConsistent c
LeftBy-IsConsistent (by_return c) h = h
LeftBy-IsConsistent (by_exception c) h = h
LeftBy-IsConsistent (by_escape c) h = h

module _ {Value : Type 0} (json : Json Value) (difficulty_target : Option Value → Option Hash) where
  process_message-Leaves :
      (m : Message Value) (c : StratumClient)
      → IsConsistent c
      → Leaves (process_message json difficulty_target m c)
  unfolding process_message
  process_message-Leaves m c h =
      let job : Message Value = record m {
        method = codes "mining.notify";
        is_notification = true;
      } in
      if-both Leaves (is_invalid json m) (quit c) _ h (
        if-both Leaves m.is_notification _ _
          (if-true Leaves c.connection.stratum_mode_confirmed _ (returned c)
            (process_notice-Leaves json difficulty_target m c h) h)
          (if-both Leaves (m.id == 5) _ _
            (if-true Leaves
              ((c.connection.stratum_mode == 1)
                && json.is_array m.result
                && c.connection.stratum_mode_confirmed)
              _ (returned c)
              (λ sure. process_notice-Leaves json difficulty_target job c h (
                and_last (c.connection.stratum_mode == 1) (json.is_array m.result)
                  c.connection.stratum_mode_confirmed sure))
              h)
            (process_reply-Leaves json m c h)))

  pub process_response-Leaves :
      (value : Value) (c : StratumClient)
      → IsConsistent c
      → Leaves (process_response json difficulty_target value c)
  unfolding process_response
  process_response-Leaves value c h =
      Leaves-attempt (read_message json (c.connection.stratum_mode == 1) value) c _ h
        (λ m. process_message-Leaves m c h)

  Leaves-caught : (o : Outcome) → Leaves o → Leaves (caught o)
  Leaves-caught (returned c) h = h
  Leaves-caught (thrown c) h = h
  Leaves-caught (escaped c) h = h
  Leaves-caught crashed h = h

  Leaves-and_then :
      (o : Outcome) (next : StratumClient → Outcome)
      → Leaves o
      → ((c : StratumClient) → IsConsistent c → Leaves (next c))
      → Leaves (and_then o next)
  Leaves-and_then (returned c) next h k = k c h
  Leaves-and_then (thrown c) next h k = h
  Leaves-and_then (escaped c) next h k = h
  Leaves-and_then crashed next h k = h

  module _ (parse : Text → Option Value) (trim : Text → Text) where
    process_line-Leaves :
        (line : Text) (c : StratumClient)
        → IsConsistent c
        → Leaves (process_line json difficulty_target parse trim line c)
    unfolding process_line
    process_line-Leaves [] c h = h
    process_line-Leaves (d ∷ line) c h = trimmed (trim (d ∷ line))
      where
        parsed :
            (o : Option Value)
            → Leaves (elim o [
              | none ↦ returned c
              | some value ↦ caught (process_response json difficulty_target value c)
            ])
        parsed none = h
        parsed (some value) = Leaves-caught _ (process_response-Leaves value c h)

        trimmed :
            (text : Text)
            → Leaves (elim text [
              | [] ↦ returned c
              | a ∷ rest ↦ elim (parse (a ∷ rest)) [
                | none ↦ returned c
                | some value ↦ caught (process_response json difficulty_target value c)
              ]
            ])
        trimmed [] = h
        trimmed (a ∷ rest) = parsed (parse (a ∷ rest))

    process_lines-Leaves :
        (lines : List Text) (c : StratumClient)
        → IsConsistent c
        → Leaves (process_lines json difficulty_target parse trim lines c)
    unfolding process_lines
    process_lines-Leaves [] c h = h
    process_lines-Leaves (line ∷ lines) c h =
        Leaves-and_then (process_line json difficulty_target parse trim line c) _
          (process_line-Leaves line c h) (process_lines-Leaves lines)

    on_recv-Leaves :
        (received : Option Text) (c : StratumClient)
        → IsConsistent c
        → Leaves (on_recv_socket_data_completed json difficulty_target parse trim received c)
    unfolding on_recv_socket_data_completed
    on_recv-Leaves (some received) c h =
        Leaves-and_then _ _
          (process_lines-Leaves (split_lines (c.message ++ received)).0 _
            ((h.0.0, λ e. absurd (cc e)), h.1))
          (λ d k.
            if-both IsConsistent (is_connected d) _ _
              (if-both IsConsistent d.new_job_processed _ _ k k)
              (if-both IsConsistent d.new_job_processed _ _ k k))
    on_recv-Leaves none c h = ground arith

    -- A step of the client: a call of its owner, what boost::asio tells it, an answer that it fakes, or
    -- time that passes.
    pub data Step (c : StratumClient) : StratumClient → Type 0 where
      connects : (address : ℕ) → Step c (connect address c)
      disconnects : Step c (disconnect c)
      finalizes : Step c (disconnect_finalize c)
      shuts_down : Step c (on_ssl_shutdown_completed c)
      resolves : (found : Option (List ℕ)) → Step c (resolve_handler found c)
      starts_connect : Step c (start_connect c)
      is_sent : (error : Option WriteError) → Step c (on_send_socket_data_completed error c)
      handles_connect :
          (error refused : Bool) {c' : StratumClient}
          → LeftBy (connect_handler error refused c) c'
          → Step c c'
      timer_elapses :
          (aborted : Bool) {c' : StratumClient}
          → LeftBy (workloop_timer_elapsed aborted c) c'
          → Step c c'
      receives :
          (received : Option Text) {c' : StratumClient}
          → LeftBy (on_recv_socket_data_completed json difficulty_target parse trim received c) c'
          → Step c c'
      fakes_answer :
          (value : Value) {c' : StratumClient}
          → LeftBy (process_response json difficulty_target value c) c'
          → Step c c'
      submits_hashrate :
          (rate : ℕ) (id : Text) {c' : StratumClient}
          → LeftBy (submit_hashrate rate id c) c'
          → Step c c'
      submits_solution :
          (solution : Solution) {c' : StratumClient}
          → LeftBy (submit_solution solution c) c'
          → Step c c'
      waits : (time : ℕ) → Step c (record c { now = c.now + time })

    pub data Reachable (first : StratumClient) : StratumClient → Type 0 where
      begins : Reachable first first
      then_step : {c c' : StratumClient} → Reachable first c → Step c c' → Reachable first c'

    Step-IsConsistent : {c c' : StratumClient} → Step c c' → IsConsistent c → IsConsistent c'
    Step-IsConsistent {c} (connects address) h = IsConsistent-connect address c h
    Step-IsConsistent {c} disconnects h = IsConsistent-disconnect c h
    Step-IsConsistent {c} finalizes h = IsConsistent-disconnect_finalize c h
    Step-IsConsistent shuts_down h = (h.0, refl)
    Step-IsConsistent {c} (resolves found) h = IsConsistent-resolve_handler found c h
    Step-IsConsistent {c} starts_connect h = IsConsistent-start_connect c h
    Step-IsConsistent {c} (is_sent error) h = IsConsistent-on_send error c h
    Step-IsConsistent {c} (handles_connect error refused left) h =
        LeftBy-IsConsistent left (connect_handler-Leaves error refused c h)
    Step-IsConsistent {c} (timer_elapses aborted left) h =
        LeftBy-IsConsistent left (workloop_timer_elapsed-Leaves aborted c h)
    Step-IsConsistent {c} (receives received left) h =
        LeftBy-IsConsistent left (on_recv-Leaves received c h)
    Step-IsConsistent {c} (fakes_answer value left) h =
        LeftBy-IsConsistent left (process_response-Leaves value c h)
    Step-IsConsistent {c} (submits_hashrate rate id left) h =
        LeftBy-IsConsistent left (submit_hashrate-Leaves rate id c h)
    Step-IsConsistent {c} (submits_solution solution left) h =
        LeftBy-IsConsistent left (submit_solution-Leaves solution c h)
    Step-IsConsistent (waits time) h = h

    -- However its owner, its timer, its sockets and the pool act, a client that starts with neither a
    -- session nor a job, and whose count of the answers it waits for is that of the times it keeps, has
    -- a session, and a job that it is to tell the farm, only in a mode that is confirmed, and its count is
    -- still that of the times.
    pub Reachable-IsConsistent :
        {first c : StratumClient}
        → (first.session ≡ none)
        → (first.new_job_processed ≡ false)
        → (first.response_pleas_count ≡ length first.response_plea_times)
        → Reachable first c
        → IsConsistent c
    Reachable-IsConsistent {first} no_session no_job counted begins = (
      (
        subst (λ o. HasMode o first.connection.stratum_mode_confirmed) (sym no_session) tt,
        λ e. absurd (cc (e, no_job)),
      ),
      counted,
    )
    Reachable-IsConsistent no_session no_job counted (then_step before step) =
        Step-IsConsistent step (Reachable-IsConsistent no_session no_job counted before)
