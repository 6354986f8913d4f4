-- ===== src/Getwork/Polling.antt =====
-- A poll of the pool for work: from the timer that elapses to the timer that is started again.
use quai_gpu_miner_archive.Getwork.{
  GetworkClient, Json, Outcome, and_then, returned, Text, WorkPackage, Request, no_error,
  timer_wait, tell_work, async_connect, async_write, async_read, call,
}
use quai_gpu_miner_archive.Getwork.Connecting.{getwork_timer_elapsed, get_work, send, post}
use quai_gpu_miner_archive.Getwork.Messages.{is_good_status}
use quai_gpu_miner_archive.Getwork.Responses.{
  handle_read, process_body, process_response, settle, work_answer, read_work, take_work, wait_for,
}
use quai_gpu_miner_archive.Getwork.Exchange.{
  IsWithout, IsHeader, http_answer, closed, handle_read-http_answer, IsIdle, ask, asked, ask-send,
}
use quai_gpu_miner_archive.Stratum.Messages.{id_of, is_success_of}
use quai_gpu_miner_archive.Stratum.Texts.{codes}
use quai_gpu_miner_archive.EthashAux.{same_words}
use quai_gpu_miner_archive.EthashAux.Laws.{same_words_iff}
use quai_gpu_miner_archive.Ethash.Hash.{word64s}
use quai_gpu_miner_archive.Prelude.{
  ℕ, ◌-◌, ◌/◌, ◌≡◌, refl, inl, inr, Bool, true, false, Option, some, List, [], ◌∷◌, ◌++◌, arith,
  ltb, if◌then◌else◌, Bool-cases, All,
}

-- An answer by HTTP that is read.
pub record IsHttp (status : Text) (headers : List Text) (body : Text) : Type 0 where
  pub good : is_good_status status ≡ true
  pub whole : IsWithout 13 status
  pub are_headers : All IsHeader headers
  pub one_line : IsWithout 10 body

module _ {Value : Type 0} (json : Json Value) (parse : Text → Bool × Value) where
  -- The value is a request with the id.
  abbrev pub HasId : ℕ → Value → Type 0
  HasId id value =
      (field : Text → Option Value) × (json.object value ≡ some field)
      × (id_of json (field (codes "id")) ≡ some id)

  -- The body is a success with the result.
  pub record IsResult (body : Text) (result : Value) : Type 0 where
    pub field : Text → Option Value
    pub id : Value
    pub is_read : (parse body).0 ≡ true
    pub is_object : json.object (parse body).1 ≡ some field
    pub has_id : field (codes "id") ≡ some id
    pub is_success : is_success_of json (field (codes "error")) ≡ true
    pub has_result : field (codes "result") ≡ some result

  process_body-work :
      (body : Text) (result : Value) (wp : WorkPackage) (c : GetworkClient Value)
      → HasId 1 c.pending
      → IsResult body result
      → read_work json result ≡ some wp
      → process_body json parse body c
        ≡ returned (wait_for json c.farm_recheck_period (take_work json wp c))
  unfolding process_response work_answer
  process_body-work body result wp c (field, is_request, one) is_result work =
      rw
        (
          is_result.is_read, is_result.is_object, is_result.has_id, is_request, one,
          is_result.is_success, is_result.has_result, work,
        )
        refl

  -- The timer elapses, the request for work is sent, and the text is the answer.
  abbrev pub poll : (Request → Text) → Text → GetworkClient Value → Outcome (GetworkClient Value)
  poll write text c =
      and_then (ask parse (getwork_timer_elapsed write false c))
        (handle_read json parse no_error text)

  -- The work is current, its owner knows, and the timer runs again.
  pub record IsPolled (endpoint : ℕ) (line : Text) (wp : WorkPackage) (c c' : GetworkClient Value)
      : Type 0 where
    pub idle : IsIdle c'
    pub keeps_endpoints : c'.endpoints ≡ c.endpoints
    pub has_work : word64s c'.current.header ≡ word64s wp.header
    pub adds_calls :
        c'.calls
        ≡ timer_wait c.farm_recheck_period
            ∷ (if same_words (word64s c.current.header) (word64s wp.header)
                then []
                else tell_work wp ∷ [])
          ++ async_read ∷ async_write (post c.connection line) ∷ async_connect endpoint ∷ c.calls

  pub settle-empty :
      (c : GetworkClient Value)
      → c.tx_queue ≡ []
      → settle json parse c ≡ returned (record c { tx_pending = false })
  unfolding settle
  settle-empty c h = ground arith

  -- What is left of a client that waits for the answer, by whether the header is that of the current work.
  settle-work :
      (endpoint : ℕ) (line : Text) (wp : WorkPackage) (c : GetworkClient Value)
      → IsIdle c
      → let d = closed json parse (asked parse endpoint line c) in
        (c' : GetworkClient Value) × (settle json parse
            (wait_for json d.farm_recheck_period (take_work json wp d))
          ≡ returned c')
        × IsPolled endpoint line wp c c'
  settle-work endpoint line wp c idle =
      elim (Bool-cases (same_words (word64s c.current.header) (word64s wp.header))) [
        | inl same ↦
            let d =
              wait_for json c.farm_recheck_period
                (closed json parse (asked parse endpoint line c)) in
            rw same (
              record d { tx_pending = false },
              settle-empty d refl,
              record {
                idle = record {
                  not_connecting = idle.not_connecting;
                  not_pending = refl;
                  no_lines = refl;
                  no_request = refl;
                };
                keeps_endpoints = refl;
                has_work = (same_words_iff (word64s c.current.header) (word64s wp.header)).0 same;
                adds_calls = rw same refl;
              },
            )
        | inr other ↦
            let d =
              wait_for json c.farm_recheck_period
                (record (call (tell_work wp) (closed json parse (asked parse endpoint line c))) {
                  current = wp;
                  current_tstamp = c.now;
                }) in
            rw other (
              record d { tx_pending = false },
              settle-empty d refl,
              record {
                idle = record {
                  not_connecting = idle.not_connecting;
                  not_pending = refl;
                  no_lines = refl;
                  no_request = refl;
                };
                keeps_endpoints = refl;
                has_work = refl;
                adds_calls = rw other refl;
              },
            )
      ]

  timer-fresh :
      (write : Request → Text) (c : GetworkClient Value)
      → ltb c.worktimeout ((c.now - c.current_tstamp) / 1000) ≡ false
      → getwork_timer_elapsed write false c ≡ send (write get_work) c
  unfolding getwork_timer_elapsed
  timer-fresh write c fresh = rw fresh refl

  -- A poll goes through and leaves the client ready for the next. An idle client whose work has not timed out
  -- and that has an address asks there for work; if the answer is read, is a success and holds work, then
  -- the client is idle again, keeps its addresses, has work with that header, has told it if the
  -- header is new and only then, and has started the timer.
  pub poll-IsPolled :
      (write : Request → Text) (a : ℕ) (line status : Text) (headers : List Text) (body : Text)
      (result : Value) (wp : WorkPackage) (endpoint : ℕ) (rest : List ℕ) (c : GetworkClient Value)
      → write get_work ≡ a ∷ line
      → HasId 1 (parse (a ∷ line)).1
      → IsHttp status headers body
      → IsResult body result
      → read_work json result ≡ some wp
      → IsIdle c
      → c.endpoints ≡ endpoint ∷ rest
      → ltb c.worktimeout ((c.now - c.current_tstamp) / 1000) ≡ false
      → (c' : GetworkClient Value) × (poll write (http_answer status headers body) c ≡ returned c')
        × IsPolled endpoint (a ∷ line) wp c c'
  poll-IsPolled write a line status headers body result wp endpoint rest c written asks http
        is_result work idle has_endpoint fresh =
      let (c', settled, polled) = settle-work endpoint (a ∷ line) wp c idle in
      (
        c',
        rw
            (
              timer-fresh write c fresh,
              written,
              ask-send parse endpoint a rest line c idle has_endpoint,
              handle_read-http_answer json parse status headers body
                  (asked parse endpoint (a ∷ line) c) http.good http.whole http.are_headers
                  http.one_line,
              process_body-work body result wp
                  (closed json parse (asked parse endpoint (a ∷ line) c)) asks is_result work,
            )
            settled,
        polled,
      )
