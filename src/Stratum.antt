-- ===== src/Stratum.antt =====
-- The state of `EthStratumClient` (libpoolprotocols/stratum/EthStratumClient.h), of the session and the
-- connection that it works on (libpoolprotocols/PoolClient.h, libpoolprotocols/PoolURI.h), and what it
-- says to the rest of the program and to the pool. What it asks of boost::asio and of its owner is
-- written down in `calls`, the last one first. The owner sets all of the client's handlers. An
-- endpoint is a number that stands for it, and a time is a number of milliseconds.
mod Tests
pub mod JsonTrees
pub mod Texts
pub mod Pleas
pub mod Sending
pub mod Connecting
pub mod Timer
pub mod Messages
pub mod Logins
pub mod Replies
pub mod Jobs
pub mod Notices
pub mod Receiving
pub mod Submitting
pub mod Frames
pub mod Lines
pub mod Delivery
pub mod Detection
pub mod Accounting
pub mod Timeouts
pub mod Guards
pub mod Sessions
pub mod Digits
pub mod Reading
pub mod Extranonces
pub use quai_gpu_miner_archive.EthashAux.{Text, WorkPackage, no_work, Solution}
use quai_gpu_miner_archive.Ethash.Hash.{Hash}
use quai_gpu_miner_archive.Prelude.{
  ℕ, Bool, true, false, not, ◌&&◌, ◌||◌, Option, none, some, List, [], ◌∷◌, ◌++◌,
}

-- What the client uses of jsoncpp. `object` reads the members of an object, and `none` is the
-- exception on a value that has none. `none` of the conversions is their exception.
pub record Json (Value : Type 0) : Type 0 where
  pub null : Value
  pub object : Value → Option (Text → Option Value)
  pub members : Value → List (Text × Value)
  pub elements : Value → List Value
  pub is_null : Value → Bool
  pub is_array : Value → Bool
  pub is_object : Value → Bool
  pub is_string : Value → Bool
  pub is_bool : Value → Bool
  pub is_empty : Value → Bool
  pub converts_to_string : Value → Bool
  pub converts_to_array : Value → Bool
  pub converts_to_object : Value → Bool
  pub converts_to_bool : Value → Bool
  pub as_string : Value → Option Text
  pub as_uint : Value → Option ℕ
  pub as_bool : Value → Option Bool

-- `params` of a request: an array of strings, or the object of `mining.hello`.
pub data Params : Type 0 where
  no_params : Params
  texts : List Text → Params
  hello : Text → Text → Text → Text → Params

pub record Request : Type 0 where
  pub id : ℕ
  pub jsonrpc : Bool
  pub method : Text
  pub params : Params
  pub worker : Option Text

-- What `send` is given: a request, or an answer to the pool with its version of JSON-RPC and its id.
pub data Line : Type 0 where
  request : Request → Line
  version_answer : ℕ → ℕ → Text → Line
  unknown_answer : ℕ → ℕ → Line
  null_value : Line

-- `Session`.
pub record Session : Type 0 where
  pub start : ℕ
  pub subscribed : Bool
  pub authorized : Bool
  pub extra_nonce : ℕ
  pub extra_nonce_size_bytes : ℕ
  pub next_work_boundary : Hash
  pub first_mining_set : Bool
  pub timeout : ℕ
  pub session_id : Text
  pub worker_id : Text
  pub algo : Text
  pub epoch : ℕ
  pub last_tx_stamp : ℕ

-- `URI`: what the client uses of it. `secure` is a security level other than none, and `named` a host
-- that a name server resolves.
pub record Connection : Type 0 where
  pub host : Text
  pub port : ℕ
  pub named : Bool
  pub secure : Bool
  pub version : ℕ
  pub user : Text
  pub pass : Text
  pub worker : Text
  pub path : Text
  pub stratum_mode : ℕ
  pub stratum_mode_confirmed : Bool
  pub unrecoverable : Bool
  pub responds : Bool
  pub total_duration : ℕ

pub data Call : Type 0 where
  post_start_connect : Call
  post_disconnect : Call
  post_disconnect_finalize : Call
  post_failed_login : Call
  timer_start : Call
  timer_sleep : Call
  async_resolve : Call
  async_connect : ℕ → Call
  async_read : Call
  async_write : List Line → Call
  async_shutdown : Call
  tell_connected : Call
  tell_disconnected : Call
  tell_accepted : ℕ → ℕ → Bool → Call
  tell_rejected : ℕ → ℕ → Call
  tell_work : WorkPackage → Call

-- `socket` is `m_socket` with whether it is open, `none` the null pointer; `now` is the clock's time.
pub record StratumClient : Type 0 where
  pub agent : Text
  pub worktimeout : ℕ
  pub responsetimeout : ℕ
  pub now : ℕ
  pub connected : Bool
  pub connecting : Bool
  pub disconnecting : Bool
  pub auth_pending : Bool
  pub current : WorkPackage
  pub current_timestamp : ℕ
  pub message : Text
  pub new_job_processed : Bool
  pub socket : Option Bool
  pub endpoints : List ℕ
  pub response_pleas_count : ℕ
  pub response_plea_older : ℕ
  pub response_plea_times : List ℕ
  pub tx_pending : Bool
  pub tx_queue : List Line
  pub send_buffer : List Line
  pub solution_submitted_max_id : ℕ
  pub session : Option Session
  pub connection : Connection
  pub calls : List Call

-- How a handler ends: it returns, a `std::exception` leaves it, another exception leaves it, or it
-- used a null pointer or an empty queue, which has no defined behaviour.
pub data Outcome : Type 0 where
  returned : StratumClient → Outcome
  thrown : StratumClient → Outcome
  escaped : StratumClient → Outcome
  crashed : Outcome

abbrev pub call : Call → StratumClient → StratumClient
call x c = record c { calls = x ∷ c.calls }

-- A step that may throw, with the state it throws in.
abbrev pub attempt : {A : Type 0} → Option A → StratumClient → (A → Outcome) → Outcome
attempt none c next = thrown c
attempt (some a) c next = next a

-- What follows a step that returned.
abbrev pub and_then : Outcome → (StratumClient → Outcome) → Outcome
and_then (returned c) next = next c
and_then (thrown c) next = thrown c
and_then (escaped c) next = escaped c
and_then crashed next = crashed

-- `catch (const std::exception&)`.
abbrev pub caught : Outcome → Outcome
caught (returned c) = returned c
caught (thrown c) = returned c
caught (escaped c) = escaped c
caught crashed = crashed

-- A use of `*m_session`.
abbrev pub with_session : StratumClient → (Session → Outcome) → Outcome
with_session c next = elim c.session [ none ↦ crashed | some session ↦ next session ]

abbrev pub is_pending_state : StratumClient → Bool
is_pending_state c = c.connecting || c.disconnecting

abbrev pub is_connected : StratumClient → Bool
is_connected c = c.connected && not (is_pending_state c)

abbrev pub is_subscribed : StratumClient → Bool
is_subscribed c = elim c.session [ none ↦ false | some session ↦ session.subscribed ]

abbrev pub is_authorized : StratumClient → Bool
is_authorized c = elim c.session [ none ↦ false | some session ↦ session.authorized ]

-- `SetStratumMode(mode, confirmed)`.
abbrev pub set_stratum_mode : ℕ → Bool → StratumClient → StratumClient
set_stratum_mode mode confirmed c = record c {
  connection = record c.connection { stratum_mode = mode; stratum_mode_confirmed = confirmed };
}

abbrev pub mark_unrecoverable : StratumClient → StratumClient
mark_unrecoverable c = record c { connection = record c.connection { unrecoverable = true } }

-- `URI::UserDotWorker`.
abbrev pub user_dot_worker : Connection → Text
user_dot_worker uri = elim uri.worker [ [] ↦ uri.user | a ∷ rest ↦ uri.user ++ 46 ∷ a ∷ rest ]
