-- ===== src/Stratum/Accounting.antt =====
-- How the pool's answers to solutions are accounted.
use quai_gpu_miner_archive.Stratum.{
  crashed, StratumClient, Json, Outcome, returned, Call, Solution, tell_accepted, tell_rejected,
  thrown, escaped, attempt, Request, request,
}
use quai_gpu_miner_archive.Stratum.Messages.{Message}
use quai_gpu_miner_archive.Stratum.Replies.{
  process_reply, solution_answer, error_code, account, starts_with_2, success_of_result,
}
use quai_gpu_miner_archive.Stratum.Pleas.{dequeue_response_plea}
use quai_gpu_miner_archive.Stratum.Frames.{IsReturned}
use quai_gpu_miner_archive.Stratum.Sending.{send}
use quai_gpu_miner_archive.Stratum.Pleas.{enqueue_response_plea}
use quai_gpu_miner_archive.Prelude.{
  ℕ, ◌+◌, ◌-◌, ◌≤◌, ◌≡◌, refl, Bool, true, false, Option, none, some, List, ◌∷◌, arith, ltb, ◌==◌,
  if◌then◌else◌, if-both,
}

-- The account of a miner's solution: accepted, also as stale, or rejected.
abbrev pub IsAccount : ℕ → Call → Type 0
IsAccount miner_index (tell_accepted delay index stale) = index ≡ miner_index
IsAccount miner_index (tell_rejected delay index) = index ≡ miner_index
IsAccount miner_index _ = ⊥

-- The account of a miner's solution, accepted or rejected.
abbrev pub IsVerdict : Bool → ℕ → Call → Type 0
IsVerdict true miner_index (tell_accepted delay index stale) = index ≡ miner_index
IsVerdict false miner_index (tell_rejected delay index) = index ≡ miner_index
IsVerdict ok miner_index _ = ⊥

-- If the step returns, it has made one call, of the kind.
abbrev pub AddsOne : (Call → Type 0) → List Call → Outcome → Type 0
AddsOne P calls (returned c) = (x : Call) × P x × (c.calls ≡ x ∷ calls)
AddsOne P calls (thrown c) = c.calls ≡ calls
AddsOne P calls (escaped c) = ⊥
AddsOne P calls crashed = ⊥

AddsOne-attempt :
    {A : Type 0} (P : Call → Type 0) (o : Option A) (c : StratumClient) (next : A → Outcome)
    → ((a : A) → AddsOne P c.calls (next a))
    → AddsOne P c.calls (attempt o c next)
AddsOne-attempt P none c next h = refl
AddsOne-attempt P (some a) c next h = h a

AddsOne-account :
    (ok stale : Bool) (delay miner_index : ℕ) (c : StratumClient)
    → AddsOne (IsAccount miner_index) c.calls (account ok stale delay miner_index c)
AddsOne-account true stale delay miner_index c = (tell_accepted delay miner_index stale, refl, refl)
AddsOne-account false stale delay miner_index c = (tell_rejected delay miner_index, refl, refl)

-- The client that has sent a solution.
abbrev pub counted : Solution → StratumClient → StratumClient
counted solution c = record c {
  solution_submitted_max_id =
      if ltb c.solution_submitted_max_id (40 + solution.midx)
      then 40 + solution.midx
      else c.solution_submitted_max_id;
}

abbrev pub submitted : Solution → Request → StratumClient → StratumClient
submitted solution r c = send (request r) (enqueue_response_plea (counted solution c))

module _ {Value : Type 0} (json : Json Value) where
  AddsOne-solution_answer :
      (m : Message Value) (delay : ℕ) (c : StratumClient)
      → AddsOne (IsAccount (m.id - 40)) c.calls (solution_answer json m delay c)
  unfolding solution_answer
  AddsOne-solution_answer m delay c =
      let P = AddsOne (IsAccount (m.id - 40)) c.calls in
      if-both P (c.connection.stratum_mode == 3) _ _
        (if-both P m.is_success _ _ (AddsOne-account true false delay (m.id - 40) c) (
          AddsOne-attempt (IsAccount (m.id - 40)) (error_code json m) c _ (λ text.
            AddsOne-account (starts_with_2 text) (starts_with_2 text) delay (m.id - 40) c)))
        (AddsOne-attempt (IsAccount (m.id - 40)) (success_of_result json m) c _
          (λ ok. AddsOne-account ok false delay (m.id - 40) c))

  process_reply-solution_answer :
      (m : Message Value) (c : StratumClient)
      → 40 ≤ m.id
      → m.id ≤ c.solution_submitted_max_id
      → process_reply json m c
        ≡ solution_answer json m (dequeue_response_plea c).0 (dequeue_response_plea c).1
  unfolding process_reply
  process_reply-solution_answer m c low high = ground arith

  -- The answer to a solution that was submitted in the session makes one call of the farm's accounts: it
  -- accepts or rejects the solution of the miner whose index the id holds, in each mode. If an
  -- exception leaves it, it makes none.
  pub process_reply-AddsOne :
      (m : Message Value) (c : StratumClient)
      → 40 ≤ m.id
      → m.id ≤ c.solution_submitted_max_id
      → AddsOne (IsAccount (m.id - 40)) c.calls (process_reply json m c)
  process_reply-AddsOne m c low high =
      rw (process_reply-solution_answer m c low high)
        (AddsOne-solution_answer m (dequeue_response_plea c).0 (dequeue_response_plea c).1)

  -- Whether an answer accepts the solution: in EthereumStratum/2.0.0 if it is a success or has an error code
  -- that starts with 2, in the other modes as its Boolean result says, or whether it has an error.
  abbrev pub is_accepted : ℕ → Message Value → Option Bool
  is_accepted mode m =
      if mode == 3
      then (if m.is_success
          then some true
          else elim (error_code json m) [ none ↦ none | some text ↦ some (starts_with_2 text) ])
      else success_of_result json m

  -- The step returns, having told the verdict and nothing else.
  abbrev pub Tells : Bool → ℕ → StratumClient → Outcome → Type 0
  Tells ok miner_index c o =
      IsReturned (λ d. (x : Call) × IsVerdict ok miner_index x × (d.calls ≡ x ∷ c.calls)) o
