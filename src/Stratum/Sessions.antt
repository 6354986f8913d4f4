-- ===== src/Stratum/Sessions.antt =====
-- The invariant of the client's state: a session has a confirmed mode, and the answers that are awaited
-- are counted.
pub mod Replies
pub mod Notices
pub mod Reachable
use quai_gpu_miner_archive.Stratum.{
  StratumClient, Session, Outcome, returned, thrown, escaped, crashed, with_session, attempt, Json,
  Text, Hash, Line, call, async_shutdown,
}
use quai_gpu_miner_archive.Stratum.Frames.{core-send}
use quai_gpu_miner_archive.Stratum.Pleas.{
  dequeue_response_plea, enqueue_response_plea, clear_response_pleas,
}
use quai_gpu_miner_archive.Stratum.Connecting.{
  choose_mode, connect, log_in, start_connect, disconnect, disconnect_finalize, resolve_handler,
  connect_handler,
}
use quai_gpu_miner_archive.Stratum.Timer.{
  noop_request, check_connected, keep_alive, workloop_timer_elapsed,
}
use quai_gpu_miner_archive.Stratum.Sending.{
  send_socket_data, send, on_send_socket_data_completed, WriteError, recv_socket_data,
}
use quai_gpu_miner_archive.Prelude.{
  ℕ, ◌≡◌, refl, sym, subst, Bool, true, false, Option, none, some, List, [], ◌∷◌, arith, length,
  length-append, length-drop,
}

-- A session has a confirmed mode.
abbrev pub HasMode : Option Session → Bool → Type 0
HasMode none confirmed = Unit {0}
HasMode (some session) confirmed = confirmed ≡ true

-- A job that is to be told has one.
abbrev pub HasJobMode : Bool → Bool → Type 0
HasJobMode job confirmed = job ≡ true → confirmed ≡ true

abbrev pub IsConsistent : StratumClient → Type 0
IsConsistent c =
    (HasMode c.session c.connection.stratum_mode_confirmed
      × HasJobMode c.new_job_processed c.connection.stratum_mode_confirmed)
    × (c.response_pleas_count ≡ length c.response_plea_times)

-- The state that a step leaves, however it ends.
abbrev pub Leaves : Outcome → Type 0
Leaves (returned c) = IsConsistent c
Leaves (thrown c) = IsConsistent c
Leaves (escaped c) = IsConsistent c
Leaves crashed = Unit

-- The client may take any session.
abbrev pub CanTakeSession : StratumClient → Type 0
CanTakeSession c =
    ((c.connection.stratum_mode_confirmed ≡ true)
      × HasJobMode c.new_job_processed c.connection.stratum_mode_confirmed)
    × (c.response_pleas_count ≡ length c.response_plea_times)

pub Leaves-with_session :
    (c : StratumClient) (next : Session → Outcome)
    → IsConsistent c
    → ((session : Session) → CanTakeSession c → Leaves (next session))
    → Leaves (with_session c next)
Leaves-with_session c next ((mode, job), counted) k = go c.session mode
  where
    go :
        (o : Option Session)
        → HasMode o c.connection.stratum_mode_confirmed
        → Leaves (elim o [ none ↦ crashed | some session ↦ next session ])
    go none has = tt
    go (some session) has = k session ((has, job), counted)

pub Leaves-attempt :
    {A : Type 0} (o : Option A) (c : StratumClient) (next : A → Outcome)
    → IsConsistent c
    → ((a : A) → Leaves (next a))
    → Leaves (attempt o c next)
Leaves-attempt none c next h k = h
Leaves-attempt (some a) c next h k = k a

pub IsConsistent-send :
    (line : Line) (c : StratumClient) → IsConsistent c → IsConsistent (send line c)
IsConsistent-send line c h = subst IsConsistent (sym (core-send line c)) h

pub IsConsistent-enqueue :
    (c : StratumClient) → IsConsistent c → IsConsistent (enqueue_response_plea c)
IsConsistent-enqueue c (mode, counted) =
    (mode, omega (arith, length-append c.response_plea_times (c.now ∷ [])))

pub IsConsistent-dequeue :
    (c : StratumClient) → IsConsistent c → IsConsistent (dequeue_response_plea c).1
IsConsistent-dequeue c (mode, counted) = (mode, omega (arith, length-drop 1 c.response_plea_times))

pub send_socket_data-IsConsistent :
    (c : StratumClient) → IsConsistent c → IsConsistent (send_socket_data c)
unfolding send_socket_data
send_socket_data-IsConsistent c h = ground arith

-- The handlers of connecting, sending and waiting.
pub IsConsistent-disconnect_finalize :
    (c : StratumClient) → IsConsistent c → IsConsistent (disconnect_finalize c)
unfolding disconnect_finalize
IsConsistent-disconnect_finalize c h = ground arith

pub IsConsistent-disconnect : (c : StratumClient) → IsConsistent c → IsConsistent (disconnect c)
unfolding disconnect
IsConsistent-disconnect c h = ground (
  arith,
  IsConsistent-disconnect_finalize (record c { disconnecting = true; connected = false }),
  IsConsistent-disconnect_finalize
      (record c { disconnecting = true; connected = false; socket = some false }),
  IsConsistent-enqueue (call async_shutdown (record c { disconnecting = true; connected = false })),
)

pub IsConsistent-connect :
    (address : ℕ) (c : StratumClient) → IsConsistent c → IsConsistent (connect address c)
unfolding connect
IsConsistent-connect address c h = ground arith

pub IsConsistent-resolve_handler :
    (found : Option (List ℕ)) (c : StratumClient)
    → IsConsistent c
    → IsConsistent (resolve_handler found c)
unfolding resolve_handler
IsConsistent-resolve_handler found c h =
    ground (arith, IsConsistent-disconnect_finalize (record c { connecting = false }))

pub IsConsistent-start_connect :
    (c : StratumClient) → IsConsistent c → IsConsistent (start_connect c)
unfolding start_connect
IsConsistent-start_connect c h =
    ground (arith, IsConsistent-disconnect_finalize (record c { connecting = false }))

pub IsConsistent-choose_mode : (c : StratumClient) → IsConsistent c → IsConsistent (choose_mode c)
IsConsistent-choose_mode c h = ground arith

pub IsConsistent-log_in : (c : StratumClient) → IsConsistent c → IsConsistent (log_in c)
unfolding log_in
IsConsistent-log_in c (mode, counted) =
    let chosen = choose_mode (clear_response_pleas (record c { send_buffer = [] })) in
    IsConsistent-send _ _ (
      IsConsistent-enqueue (recv_socket_data chosen) (
        IsConsistent-choose_mode (clear_response_pleas (record c { send_buffer = [] }))
          (mode, refl)))

pub connect_handler-Leaves :
    (error refused : Bool) (c : StratumClient)
    → IsConsistent c
    → Leaves (connect_handler error refused c)
unfolding connect_handler
connect_handler-Leaves error refused c h = ground (
  arith,
  IsConsistent-log_in (record c {
    connecting = false;
    connected = true;
    connection = record c.connection { responds = true };
    message = [];
    tx_queue = [];
  }),
)

pub keep_alive-IsConsistent : (c : StratumClient) → IsConsistent c → IsConsistent (keep_alive c)
unfolding keep_alive
keep_alive-IsConsistent c h = ground (arith, IsConsistent-send noop_request c)

pub check_connected-Leaves : (c : StratumClient) → IsConsistent c → Leaves (check_connected c)
unfolding check_connected
check_connected-Leaves c h = ground arith

pub workloop_timer_elapsed-Leaves :
    (aborted : Bool) (c : StratumClient)
    → IsConsistent c
    → Leaves (workloop_timer_elapsed aborted c)
unfolding workloop_timer_elapsed
workloop_timer_elapsed-Leaves aborted c h =
    ground (arith, keep_alive-IsConsistent c, check_connected-Leaves (keep_alive c))

pub IsConsistent-on_send :
    (error : Option WriteError) (c : StratumClient)
    → IsConsistent c
    → IsConsistent (on_send_socket_data_completed error c)
unfolding on_send_socket_data_completed
IsConsistent-on_send error c h = ground (arith, send_socket_data-IsConsistent _)
