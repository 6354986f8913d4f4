-- ===== src/Getwork/Responses.antt =====
-- `processResponse` and `handle_read` of libpoolprotocols/getwork/EthGetworkClient.cpp.
use quai_gpu_miner_archive.Getwork.{
  GetworkClient, Json, call, Outcome, returned, and_then, attempt, Text, WorkPackage, no_work,
  ErrorCode, no_error, operation_aborted, other_error, timer_wait, tell_work, tell_accepted,
  tell_rejected,
}
use quai_gpu_miner_archive.Getwork.Connecting.{begin_connect, disconnect}
use quai_gpu_miner_archive.Getwork.Messages.{split_crlf, without_feeds, is_good_status}
use quai_gpu_miner_archive.Stratum.Messages.{text_at, process_error, is_success_of, id_of, or_null}
use quai_gpu_miner_archive.Stratum.Texts.{codes, strtoul, h256}
use quai_gpu_miner_archive.Stratum.Jobs.{to_int}
use quai_gpu_miner_archive.CommonData.{to_hex, dont_add}
use quai_gpu_miner_archive.EthashAux.{same_words}
use quai_gpu_miner_archive.Ethash.Hash.{bytes, word64s}
use quai_gpu_miner_archive.Prelude.{
  ℕ, ◌-◌, Bool, true, false, not, ◌&&◌, ◌||◌, Option, none, some, List, [], ◌∷◌, leb, ◌==◌,
  if◌then◌else◌, ◌>>=◌,
}

module _ {Value : Type 0} (json : Json Value) where
  -- `get(ArrayIndex(i), "").asString()`: `none` is the exception of a value that is no array.
  abbrev param_at : Value → ℕ → Option Text
  param_at value i =
      if json.is_array value || json.is_null value then text_at json value i else none

  -- The work of an answer to a request for work.
  unfoldable pub read_work : Value → Option WorkPackage
  unfolding h256 strtoul
  read_work prm = do
    header_text ← param_at prm 0
    header ← h256 header_text
    seed_text ← param_at prm 1
    seed ← h256 seed_text
    boundary_text ← param_at prm 2
    boundary ← h256 boundary_text
    block ← param_at prm 3
    some (record no_work {
      header = header;
      seed = seed;
      boundary = boundary;
      block = to_int (strtoul block);
      job = to_hex (bytes header) 2 dont_add;
    })

  abbrev pub wait_for : ℕ → GetworkClient Value → GetworkClient Value
  wait_for time c = call (timer_wait time) c

  -- Work of another header than the current one is told.
  abbrev pub take_work : WorkPackage → GetworkClient Value → GetworkClient Value
  take_work wp c =
      if same_words (word64s c.current.header) (word64s wp.header)
      then c
      else call (tell_work wp) (record c { current = wp; current_tstamp = c.now })

  -- The answer to a request for work.
  unfoldable pub work_answer :
      Bool → Option Value → GetworkClient Value → Outcome (GetworkClient Value)
  unfolding read_work same_words
  work_answer is_success result c =
      if not is_success then returned (wait_for 30000 c) else elim result [
        | none ↦ returned c
        | some value ↦
            attempt (read_work value) c
              (λ wp. returned (wait_for c.farm_recheck_period (take_work wp c)))
      ]

  -- `_isSuccess`, reevaluated on a result that converts to a Boolean. `none` is an exception.
  abbrev pub success_of : Bool → Option Value → Option Bool
  success_of is_success result =
      if is_success && json.converts_to_bool (or_null json result)
      then json.as_bool (or_null json result)
      else some is_success

  abbrev pub solution_answer :
      ℕ → Bool → Option Value → GetworkClient Value → Outcome (GetworkClient Value)
  solution_answer id is_success result c =
      let delay = c.now - c.pending_tstamp in
      attempt (success_of is_success result) c (λ ok. returned (
        if ok
        then call (tell_accepted delay (id - 40) false) c
        else call (tell_rejected delay (id - 40)) c))

  abbrev pub answer_by_id :
      ℕ → Bool → Option Value → GetworkClient Value → Outcome (GetworkClient Value)
  answer_by_id id is_success result c =
      if (id == 0) || (id == 1)
      then work_answer is_success result c
      else if id == 9
      then returned c
      else if leb 40 id && leb id c.solution_submitted_max_id
      then solution_answer id is_success result c
      else returned c

  -- `processResponse`. The id is that of the request that waits.
  unfoldable pub process_response : Value → GetworkClient Value → Outcome (GetworkClient Value)
  unfolding work_answer process_error
  process_response value c = attempt (json.object value) c (λ field. elim (field (codes "id")) [
    | none ↦ returned c
    | some own_id ↦ attempt (json.object c.pending) c (λ asked.
        attempt (id_of json (asked (codes "id"))) c (λ id.
          let error = field (codes "error") in
          let is_success = is_success_of json error in
          attempt (if is_success then some [] else process_error json error) c
            (λ reason. answer_by_id id is_success (field (codes "result")) c)))
  ])

  module _ (parse : Text → Bool × Value) where
    abbrev pub process_body : Text → GetworkClient Value → Outcome (GetworkClient Value)
    process_body line c = if (parse line).0 then process_response (parse line).1 c else returned c

    -- The end of `handle_read`.
    unfoldable pub settle : GetworkClient Value → Outcome (GetworkClient Value)
    unfolding begin_connect
    settle c = elim c.tx_queue [
      | [] ↦ returned (record c { tx_pending = false })
      | line ∷ lines ↦ begin_connect c
    ]

    -- The loop over the lines, with whether the next one is the first and whether it is of the header.
    -- `rest` is behind the last line.
    unfoldable pub read_lines :
        Bool → Bool → Text → List Text → GetworkClient Value → Outcome (GetworkClient Value)
    unfolding process_response settle disconnect is_good_status without_feeds
    read_lines first header rest [] c = settle c
    read_lines first header rest ([] ∷ []) c = and_then (process_body (without_feeds rest) c) settle
    read_lines first header rest ([] ∷ line ∷ lines) c =
        read_lines false false rest (line ∷ lines) c
    read_lines first false rest ((a ∷ line) ∷ lines) c =
        and_then (process_body (a ∷ line) c) (read_lines false false rest lines)
    read_lines false true rest ((a ∷ line) ∷ lines) c = read_lines false true rest lines c
    read_lines true true rest ((a ∷ line) ∷ lines) c =
        let more = read_lines false true rest lines c in
        if is_good_status (a ∷ line) then more else disconnect c

    -- `received` is what boost::asio has read at once.
    unfoldable pub handle_read :
        ErrorCode → Text → GetworkClient Value → Outcome (GetworkClient Value)
    unfolding read_lines split_crlf
    handle_read no_error [] c = disconnect (record c { socket_open = false })
    handle_read no_error (a ∷ received) c =
        let parts = split_crlf (a ∷ received) in
        read_lines true true parts.1 parts.0 (record c { socket_open = false })
    handle_read operation_aborted received c = returned c
    handle_read other_error received c = disconnect c
