-- ===== src/Getwork/Accounting.antt =====
-- A solution and the pool's answer to it.
use quai_gpu_miner_archive.Getwork.{
  GetworkClient, Json, and_then, returned, Text, Request, no_error, Solution, Call, Session,
  tell_accepted, tell_rejected, async_connect, async_write, async_read, call,
}
use quai_gpu_miner_archive.Getwork.Connecting.{send, post}
use quai_gpu_miner_archive.Getwork.Submitting.{submit_solution, solution_request, raise_max_id}
use quai_gpu_miner_archive.Getwork.Responses.{
  handle_read, process_body, process_response, success_of, solution_answer, answer_by_id,
}
use quai_gpu_miner_archive.Getwork.Exchange.{
  http_answer, closed, handle_read-http_answer, IsIdle, ask, asked, ask-send,
}
use quai_gpu_miner_archive.Getwork.Polling.{IsHttp, HasId, IsResult, settle-empty}
use quai_gpu_miner_archive.Prelude.{
  ℕ, ◌+◌, ◌-◌, ◌%◌, ◌^◌, ◌≤◌, ◌<◌, ◌≡◌, refl, ◌∙◌, Bool, true, false, some, List, ◌∷◌, arith,
  if◌then◌else◌,
}

-- The account_call of a solution, by the answer.
abbrev pub account_call : Bool → ℕ → ℕ → Call
account_call ok delay miner_index =
    if ok then tell_accepted delay miner_index false else tell_rejected delay miner_index

abbrev pub later : {Value : Type 0} → ℕ → GetworkClient Value → GetworkClient Value
later time c = record c { now = c.now + time }

module _ {Value : Type 0} (json : Json Value) (parse : Text → Bool × Value) where
  solution_answer-account :
      (midx delay : ℕ) (result : Value) (ok : Bool) (c : GetworkClient Value)
      → c.now - c.pending_tstamp ≡ delay
      → success_of json true (some result) ≡ some ok
      → solution_answer json (40 + midx) true (some result) c
        ≡ returned (call (account_call ok delay midx) c)
  solution_answer-account midx delay result ok c waited verdict =
      rw (verdict, waited, index) (told ok)
    where
      told :
          (ok : Bool)
          → returned (
              if ok
              then call (tell_accepted delay midx false) c
              else call (tell_rejected delay midx) c)
            ≡ returned (call (account_call ok delay midx) c)
      told true = refl
      told false = refl

      index : 40 + midx - 40 ≡ midx
      index = omega arith

  answer_by_id-solution :
      (id : ℕ) (result : Value) (c : GetworkClient Value)
      → 40 ≤ id
      → id ≤ c.solution_submitted_max_id
      → answer_by_id json id true (some result) c ≡ solution_answer json id true (some result) c
  answer_by_id-solution id result c low high = ground arith

  process_body-solution :
      (midx delay : ℕ) (body : Text) (result : Value) (ok : Bool) (c : GetworkClient Value)
      → HasId json parse (40 + midx) c.pending
      → 40 + midx ≤ c.solution_submitted_max_id
      → c.now - c.pending_tstamp ≡ delay
      → IsResult json parse body result
      → success_of json true (some result) ≡ some ok
      → process_body json parse body c ≡ returned (call (account_call ok delay midx) c)
  unfolding process_response
  process_body-solution midx delay body result ok c (field, is_request, own) max_id waited is_result
        verdict =
      rw
        (
          is_result.is_read, is_result.is_object, is_result.has_id, is_request, own,
          is_result.is_success, is_result.has_result,
        )
        (answer_by_id-solution (40 + midx) result c (omega arith) max_id
          ∙ solution_answer-account midx delay result ok c waited verdict)

  submit_solution-send :
      (write : Request → Text) (solution : Solution) (session : Session) (c : GetworkClient Value)
      → c.session ≡ some session
      → submit_solution write solution c
        ≡ send (write (solution_request solution)) (raise_max_id solution c)
  unfolding submit_solution
  submit_solution-send write solution session c h = rw h refl

  -- The client that has the solution's id counted, and waits for the answer.
  abbrev waiting : ℕ → ℕ → Text → Solution → GetworkClient Value → GetworkClient Value
  waiting time endpoint line solution c =
      later time (asked parse endpoint line (raise_max_id solution c))

  -- A solution is accounted to the miner that found it. When an idle client with a session and an address
  -- submits a solution, whose id fits 32 bits, and the pool's answer comes after a time, is read, has no
  -- error and has a result that converts to a Boolean, then the client tells that the miner's solution is accepted or rejected, as the
  -- Boolean says, after that time, and is idle again.
  pub submit_solution-handle_read :
      (write : Request → Text) (solution : Solution) (time a : ℕ) (line status : Text)
      (headers : List Text) (body : Text) (result : Value) (ok : Bool) (endpoint : ℕ)
      (rest : List ℕ) (session : Session) (c : GetworkClient Value)
      → write (solution_request solution) ≡ a ∷ line
      → HasId json parse (40 + solution.midx) (parse (a ∷ line)).1
      → IsHttp status headers body
      → IsResult json parse body result
      → success_of json true (some result) ≡ some ok
      → IsIdle c
      → c.endpoints ≡ endpoint ∷ rest
      → c.session ≡ some session
      → 40 + solution.midx < 2 ^ 32
      → (c' : GetworkClient Value) × (and_then
            (ask parse (submit_solution write solution c))
            (λ d. handle_read json parse no_error (http_answer status headers body) (later time d))
          ≡ returned c')
        × IsIdle c'
        × (c'.calls
            ≡ account_call ok time solution.midx
              ∷ async_read
              ∷ async_write (post c.connection (a ∷ line))
              ∷ async_connect endpoint
              ∷ c.calls)
  submit_solution-handle_read write solution time a line status headers body result ok endpoint rest
        session c written asks http is_result verdict idle has_endpoint has_session fits =
      let d = waiting time endpoint (a ∷ line) solution c in
      let e = call (account_call ok time solution.midx) (closed json parse d) in
      (
        record e { tx_pending = false },
        rw
            (
              submit_solution-send write solution session c has_session,
              written,
              ask-send parse endpoint a rest line (raise_max_id solution c) (raised idle)
                  has_endpoint,
              handle_read-http_answer json parse status headers body d http.good http.whole
                  http.are_headers http.one_line,
              process_body-solution solution.midx time body result ok (closed json parse d) asks
                  (counted fits) waited is_result verdict,
            )
            (settle-empty json parse e refl),
        record {
          not_connecting = idle.not_connecting;
          not_pending = refl;
          no_lines = refl;
          no_request = refl;
        },
        refl,
      )
    where
      waited : c.now + time - c.now ≡ time
      waited = omega arith

      raised : IsIdle c → IsIdle (raise_max_id solution c)
      raised h = record {
        not_connecting = h.not_connecting;
        not_pending = h.not_pending;
        no_lines = h.no_lines;
        no_request = h.no_request;
      }

      mod_small : 40 + solution.midx < 2 ^ 32 → (40 + solution.midx) % 2 ^ 32 ≡ 40 + solution.midx
      mod_small small = omega arith

      counted :
          40 + solution.midx < 2 ^ 32
          → 40 + solution.midx ≤ (raise_max_id solution c).solution_submitted_max_id
      counted small = ground (arith, mod_small small)
