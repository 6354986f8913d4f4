-- ===== src/Getwork/Running.antt =====
-- All that can happen to a client, one operation after the other.
use quai_gpu_miner_archive.Getwork.{
  GetworkClient, Json, Outcome, attempt, returned, thrown, crashed, Text, Request, Solution,
  ErrorCode, no_error, operation_aborted, other_error, WorkPackage,
}
use quai_gpu_miner_archive.Getwork.Connecting.{
  connect, disconnect, handle_connect, handle_write, handle_resolve, getwork_timer_elapsed,
}
use quai_gpu_miner_archive.Getwork.Responses.{
  handle_read, read_lines, process_body, process_response, settle, work_answer, read_work,
  take_work, success_of, answer_by_id,
}
use quai_gpu_miner_archive.Getwork.Messages.{is_good_status, split_crlf, without_feeds}
use quai_gpu_miner_archive.Getwork.Submitting.{submit_hashrate, submit_solution}
use quai_gpu_miner_archive.Getwork.Sessions.{
  IsSound, Leaves, Leaves-and_then, Leaves-attempt, Leaves-disconnect, Leaves-begin_connect,
  Leaves-handle_write, Leaves-handle_connect, Leaves-connect, Leaves-handle_resolve, Leaves-timer,
  Leaves-submit_hashrate, Leaves-submit_solution,
}
use quai_gpu_miner_archive.Stratum.Messages.{is_success_of, process_error, id_of}
use quai_gpu_miner_archive.Stratum.Texts.{codes}
use quai_gpu_miner_archive.EthashAux.{same_words}
use quai_gpu_miner_archive.Ethash.Hash.{word64s}
use quai_gpu_miner_archive.Prelude.{
  ℕ, ◌+◌, Bool, true, false, not, ◌&&◌, ◌||◌, Option, none, some, List, [], ◌∷◌, arith, leb, ◌==◌,
  if◌then◌else◌, if-both,
}

-- A call of the client's owner, what boost::asio tells it, or time that passes.
pub data Operation : Type 0 where
  connects : ℕ → Operation
  disconnects : Operation
  resolves : Option (List ℕ) → Operation
  handles_connect : ErrorCode → Bool → Operation
  handles_write : ErrorCode → ℕ → Operation
  handles_read : ErrorCode → Text → Operation
  timer_elapses : Bool → Operation
  submits_hashrate : ℕ → Text → Operation
  submits_solution : Solution → Operation
  waits : ℕ → Operation

module _ {Value : Type 0} (json : Json Value) (parse : Text → Bool × Value) where
  IsSound-take_work :
      (wp : WorkPackage) (c : GetworkClient Value) → IsSound c → IsSound (take_work json wp c)
  IsSound-take_work wp c h =
      if-both IsSound (same_words (word64s c.current.header) (word64s wp.header)) _ _ h h

  Leaves-work_answer :
      (is_success : Bool) (result : Option Value) (c : GetworkClient Value)
      → IsSound c
      → Leaves (work_answer json is_success result c)
  unfolding work_answer
  Leaves-work_answer is_success none c h = if-both Leaves (not is_success) _ _ h h
  Leaves-work_answer is_success (some value) c h =
      if-both Leaves (not is_success) _ _ h
        (Leaves-attempt (read_work json value) c _ h (λ wp. IsSound-take_work wp c h))

  Leaves-answer_by_id :
      (id : ℕ) (is_success : Bool) (result : Option Value) (c : GetworkClient Value)
      → IsSound c
      → Leaves (answer_by_id json id is_success result c)
  Leaves-answer_by_id id is_success result c h =
      if-both Leaves ((id == 0) || (id == 1)) _ _ (Leaves-work_answer is_success result c h) (
        if-both Leaves (id == 9) _ _ h (
          if-both Leaves (leb 40 id && leb id c.solution_submitted_max_id) _ _
            (Leaves-attempt (success_of json is_success result) c _ h
              (λ ok. if-both IsSound ok _ _ h h))
            h))

  Leaves-process_response :
      (value : Value) (c : GetworkClient Value) → IsSound c → Leaves (process_response json value c)
  unfolding process_response
  Leaves-process_response value c h =
      Leaves-attempt (json.object value) c _ h (λ field. by_id field (field (codes "id")))
    where
      by_id :
          (field : Text → Option Value) (own : Option Value)
          → Leaves (elim own [
            | none ↦ returned c
            | some own_id ↦ attempt (json.object c.pending) c (λ asked.
                attempt (id_of json (asked (codes "id"))) c (λ id.
                  let error = field (codes "error") in
                  let is_success = is_success_of json error in
                  attempt
                    (if is_success then some [] else process_error json error)
                    c
                    (λ reason. answer_by_id json id is_success (field (codes "result")) c)))
          ])
      by_id field none = h
      by_id field (some own_id) = Leaves-attempt (json.object c.pending) c _ h (λ asked.
          Leaves-attempt (id_of json (asked (codes "id"))) c _ h (λ id.
            Leaves-attempt
              (if is_success_of json (field (codes "error"))
                then some []
                else process_error json (field (codes "error")))
              c _ h
              (λ reason.
                Leaves-answer_by_id id (is_success_of json (field (codes "error")))
                  (field (codes "result")) c h)))

  Leaves-process_body :
      (line : Text) (c : GetworkClient Value) → IsSound c → Leaves (process_body json parse line c)
  Leaves-process_body line c h =
      if-both Leaves (parse line).0 _ _ (Leaves-process_response (parse line).1 c h) h

  Leaves-settle : (c : GetworkClient Value) → IsSound c → Leaves (settle json parse c)
  unfolding settle
  Leaves-settle c h = ground (arith, Leaves-begin_connect c h)

  Leaves-read_lines :
      (first header : Bool) (rest : Text) (lines : List Text) (c : GetworkClient Value)
      → IsSound c
      → Leaves (read_lines json parse first header rest lines c)
  unfolding read_lines
  Leaves-read_lines first header rest [] c h = Leaves-settle c h
  Leaves-read_lines first header rest ([] ∷ []) c h =
      Leaves-and_then _ _ (Leaves-process_body (without_feeds rest) c h) Leaves-settle
  Leaves-read_lines first header rest ([] ∷ line ∷ lines) c h =
      Leaves-read_lines false false rest (line ∷ lines) c h
  Leaves-read_lines first false rest ((a ∷ line) ∷ lines) c h =
      Leaves-and_then _ _ (Leaves-process_body (a ∷ line) c h)
        (Leaves-read_lines false false rest lines)
  Leaves-read_lines false true rest ((a ∷ line) ∷ lines) c h =
      Leaves-read_lines false true rest lines c h
  Leaves-read_lines true true rest ((a ∷ line) ∷ lines) c h =
      if-both Leaves (is_good_status (a ∷ line)) _ _ (Leaves-read_lines false true rest lines c h)
        (Leaves-disconnect c)

  Leaves-handle_read :
      (error : ErrorCode) (received : Text) (c : GetworkClient Value)
      → IsSound c
      → Leaves (handle_read json parse error received c)
  unfolding handle_read
  Leaves-handle_read no_error [] c h = Leaves-disconnect (record c { socket_open = false })
  Leaves-handle_read no_error (a ∷ received) c h =
      Leaves-read_lines true true (split_crlf (a ∷ received)).1 (split_crlf (a ∷ received)).0 _ h
  Leaves-handle_read operation_aborted received c h = h
  Leaves-handle_read other_error received c h = Leaves-disconnect c

  module _ (write : Request → Text) where
    abbrev pub operate : Operation → GetworkClient Value → Outcome (GetworkClient Value)
    operate (connects address) c = connect write address c
    operate disconnects c = disconnect c
    operate (resolves found) c = handle_resolve write found c
    operate (handles_connect error opened) c = handle_connect parse error opened c
    operate (handles_write error written) c = handle_write error written c
    operate (handles_read error received) c = handle_read json parse error received c
    operate (timer_elapses error) c = getwork_timer_elapsed write error c
    operate (submits_hashrate rate id) c = submit_hashrate write rate id c
    operate (submits_solution solution) c = submit_solution write solution c
    operate (waits time) c = returned (record c { now = c.now + time })

    -- The event loop, which goes on behind an exception.
    unfoldable pub run : List Operation → GetworkClient Value → Outcome (GetworkClient Value)
    run [] c = returned c
    run (operation ∷ more) c = elim (operate operation c) [
      | returned d ↦ run more d
      | thrown d ↦ run more d
      | crashed ↦ crashed
    ]

    Leaves-operate :
        (operation : Operation) (c : GetworkClient Value) → IsSound c → Leaves (operate operation c)
    Leaves-operate (connects address) c h = Leaves-connect write address c h
    Leaves-operate disconnects c h = Leaves-disconnect c
    Leaves-operate (resolves found) c h = Leaves-handle_resolve write found c h
    Leaves-operate (handles_connect error opened) c h = Leaves-handle_connect parse error opened c h
    Leaves-operate (handles_write error written) c h = Leaves-handle_write error written c h
    Leaves-operate (handles_read error received) c h = Leaves-handle_read error received c h
    Leaves-operate (timer_elapses error) c h = Leaves-timer write error c h
    Leaves-operate (submits_hashrate rate id) c h = Leaves-submit_hashrate write rate id c h
    Leaves-operate (submits_solution solution) c h = Leaves-submit_solution write solution c h
    Leaves-operate (waits time) c h = h

    -- After any calls of its owner and whatever the network does, in any order, a client that was sound is
    -- sound, unless a null session or an empty queue was used: it is connected exactly when it has a
    -- session, and while no exchange is pending no request waits in its queue.
    pub run-IsSound :
        (operations : List Operation) (c : GetworkClient Value)
        → IsSound c
        → Leaves (run operations c)
    unfolding run
    run-IsSound [] c h = h
    run-IsSound (operation ∷ more) c h =
        go (operate operation c) (Leaves-operate operation c h) (run-IsSound more)
      where
        go :
            (o : Outcome (GetworkClient Value))
            → Leaves o
            → ((d : GetworkClient Value) → IsSound d → Leaves (run more d))
            → Leaves
                (elim o [ returned d ↦ run more d | thrown d ↦ run more d | crashed ↦ crashed ])
        go (returned d) k then_on = then_on d k
        go (thrown d) k then_on = then_on d k
        go crashed k then_on = tt
