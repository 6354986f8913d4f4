-- ===== src/Stratum/Replies.antt =====
-- The answers to the client's own requests, in `processResponse` of
-- libpoolprotocols/stratum/EthStratumClient.cpp, by the id of the request.
use quai_gpu_miner_archive.Stratum.{
  Json, StratumClient, Outcome, Text, returned, with_session, attempt, is_subscribed, call,
  is_authorized, tell_accepted, tell_rejected,
}
use quai_gpu_miner_archive.Stratum.Messages.{Message, is_blank}
use quai_gpu_miner_archive.Stratum.Pleas.{dequeue_response_plea}
use quai_gpu_miner_archive.Stratum.Texts.{codes}
use quai_gpu_miner_archive.Prelude.{
  ℕ, ◌-◌, Bool, true, false, not, ◌&&◌, ◌||◌, Option, none, some, [], ◌∷◌, leb, ◌==◌, if◌then◌else◌,
  ◌>>=◌,
}
use quai_gpu_miner_archive.Stratum.Logins.{quit, abandon, ask_authorization, login_answer}

-- The call of `m_onSolutionAccepted` or `m_onSolutionRejected`.
abbrev pub account : Bool → Bool → ℕ → ℕ → StratumClient → Outcome
account ok stale delay miner_index c = returned (
    if ok
    then call (tell_accepted delay miner_index stale) c
    else call (tell_rejected delay miner_index) c)

-- `errCode.substr(0, 1) == "2"`.
abbrev pub starts_with_2 : Text → Bool
starts_with_2 [] = false
starts_with_2 (a ∷ rest) = a == 50

module _ {Value : Type 0} (json : Json Value) where
  -- A text that is not empty. `none` is another value.
  abbrev pub full_text : Value → Option Text
  full_text value =
      if json.is_string value
      then elim (json.as_string value) [
        | none ↦ none
        | some text ↦ if is_blank text then none else some text
      ]
      else none

  -- The answer to `mining.subscribe` of EthereumStratum/2.0.0.
  unfoldable pub subscribe_answer : Message Value → StratumClient → Outcome
  unfolding ask_authorization
  subscribe_answer m c = elim (full_text m.result) [
    | none ↦ abandon c
    | some text ↦ with_session c (λ session. returned (
        ask_authorization false
          (record c { session = some (record session { session_id = text; subscribed = true }) })))
  ]

  -- `_isSuccess`, reevaluated on a result that is a Boolean. `none` is an exception.
  abbrev pub success_of_result : Message Value → Option Bool
  success_of_result m =
      if m.is_success && json.is_bool m.result then json.as_bool m.result else some m.is_success

  -- The answer to `mining.authorize` of the other modes.
  unfoldable pub authorize_answer : Message Value → StratumClient → Outcome
  authorize_answer m c = attempt (success_of_result m) c (λ ok. with_session c (λ session.
      let told = record c {
        auth_pending = false;
        session = some (record session { authorized = ok });
      } in
      if ok then returned told else abandon told))

  unfoldable pub authorize_answer_v2 : Message Value → StratumClient → Outcome
  authorize_answer_v2 m c = if not m.is_success then abandon c else elim (full_text m.result) [
    | none ↦ abandon c
    | some text ↦ with_session c (λ session. returned (record c {
      auth_pending = false;
      session = some (record session { authorized = true; worker_id = text });
    }))
  ]

  -- `responseObject["error"].get("code", "").asString()`. `none` is an exception.
  abbrev pub error_code : Message Value → Option Text
  error_code m = do
    field ← elim (m.field (codes "error")) [
      | none ↦ json.object json.null
      | some error ↦ json.object error
    ]
    elim (field (codes "code")) [ none ↦ some [] | some code ↦ json.as_string code ]

  -- The answer to a solution, after `response_delay_ms` of waiting.
  unfoldable pub solution_answer : Message Value → ℕ → StratumClient → Outcome
  solution_answer m delay c =
      let miner_index = m.id - 40 in
      if c.connection.stratum_mode == 3
      then (if m.is_success
          then account true false delay miner_index c
          else attempt (error_code m) c
              (λ text. account (starts_with_2 text) (starts_with_2 text) delay miner_index c))
      else attempt (success_of_result m) c (λ ok. account ok false delay miner_index c)

  -- The answer 999 of some pools.
  unfoldable pub stray_answer : Message Value → StratumClient → Outcome
  stray_answer m c =
      if m.is_success
      then returned c
      else if not c.connection.stratum_mode_confirmed || not (is_subscribed c && is_authorized c)
      then quit c
      else returned c

  -- An answer by its id. `dequeue_response_plea` comes first where the code calls it. The answer 5 of
  -- Eth-Proxy that holds a job is not among these.
  unfoldable pub process_reply : Message Value → StratumClient → Outcome
  unfolding login_answer subscribe_answer authorize_answer authorize_answer_v2 solution_answer
      stray_answer
  process_reply m c =
      let (delay, answered) = dequeue_response_plea c in
      let mode = c.connection.stratum_mode in
      if m.id == 1
      then login_answer json m answered
      else if m.id == 2
      then (if mode == 3 then subscribe_answer m answered else returned c)
      else if m.id == 3
      then (if mode == 3 then authorize_answer_v2 m answered else authorize_answer m answered)
      else if leb 40 m.id && leb m.id c.solution_submitted_max_id
      then solution_answer m delay answered
      else if m.id == 999
      then stray_answer m c
      else returned c
