-- ===== src/Getwork.antt =====
-- The state of `EthGetworkClient` (libpoolprotocols/getwork/EthGetworkClient.h), and what it says to the
-- rest of the program: what it asks of boost::asio and of its owner is written down in `calls`, the
-- last one first. A pool that it polls for work answers each request on a connection of its own. An
-- endpoint is a number that stands for it, and a time is a number of milliseconds.
mod Tests
pub mod Connecting
pub mod Responses
pub mod Submitting
pub mod Messages
pub mod Exchange
pub mod Refused
pub mod Polling
pub mod Accounting
pub mod Sessions
pub mod Running
pub use quai_gpu_miner_archive.Stratum.{
  Json, Request, Params, no_params, texts, Session, Connection, Text, WorkPackage, no_work,
  Solution,
}
use quai_gpu_miner_archive.Prelude.{ℕ, Bool, Option, none, some, List, ◌∷◌}

pub data Call : Type 0 where
  timer_cancel : Call
  timer_wait : ℕ → Call
  async_resolve : Call
  async_connect : ℕ → Call
  async_write : Text → Call
  async_read : Call
  tell_connected : Call
  tell_disconnected : Call
  tell_work : WorkPackage → Call
  tell_accepted : ℕ → ℕ → Bool → Call
  tell_rejected : ℕ → ℕ → Call

-- `request` is what `m_request` holds.
pub record GetworkClient (Value : Type 0) : Type 0 where
  pub farm_recheck_period : ℕ
  pub worktimeout : ℕ
  pub now : ℕ
  pub connected : Bool
  pub connecting : Bool
  pub tx_pending : Bool
  pub tx_queue : List Text
  pub endpoints : List ℕ
  pub socket_open : Bool
  pub request : Text
  pub pending : Value
  pub pending_tstamp : ℕ
  pub current : WorkPackage
  pub current_tstamp : ℕ
  pub solution_submitted_max_id : ℕ
  pub session : Option Session
  pub connection : Connection
  pub calls : List Call

-- How an operation ends: it returns, an exception leaves it, or it used a null pointer or an empty
-- queue, which has no defined behaviour.
pub data Outcome (Client : Type 0) : Type 0 where
  returned : Client → Outcome Client
  thrown : Client → Outcome Client
  crashed : Outcome Client

abbrev pub and_then :
    {Client : Type 0} → Outcome Client → (Client → Outcome Client) → Outcome Client
and_then (returned c) next = next c
and_then (thrown c) next = thrown c
and_then crashed next = crashed

-- A step that may throw, with the state it throws in.
abbrev pub attempt : {A Client : Type 0} → Option A → Client → (A → Outcome Client) → Outcome Client
attempt none c next = thrown c
attempt (some a) c next = next a

abbrev pub call : {Value : Type 0} → Call → GetworkClient Value → GetworkClient Value
call x c = record c { calls = x ∷ c.calls }

-- What boost::asio reports to a handler.
pub data ErrorCode : Type 0 where
  no_error : ErrorCode
  operation_aborted : ErrorCode
  other_error : ErrorCode
