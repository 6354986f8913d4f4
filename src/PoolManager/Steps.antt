-- ===== src/PoolManager/Steps.antt =====
-- What can happen to the manager of libpoolprotocols/PoolManager.cpp: calls of its operations, of the
-- handlers it gave its client and its timers, and changes of the client's socket.
use quai_gpu_miner_archive.PoolManager.{Uri, Text, Client, FarmView, Manager, WorkPackage}
use quai_gpu_miner_archive.PoolManager.Rotation.{rotate_connect, start}
use quai_gpu_miner_archive.PoolManager.Connections.{
  add_connection, remove_connection, set_active_connection, set_active_connection_string,
}
use quai_gpu_miner_archive.PoolManager.Handlers.{
  on_connected, on_disconnected, on_work_received, on_solution_accepted, stop, stop_waited,
  failovertimer_elapsed, submithrtimer_elapsed,
}
use quai_gpu_miner_archive.Prelude.{
  ℕ, zero, suc, ◌≡◌, Bool, false, ◌||◌, Option, none, some, List, [], ◌∷◌,
}

-- The client's socket opens or closes, which the client does on its own.
abbrev pub set_connected : Bool → Option Client → Option Client
set_connected flag (some client) = some (record client { connected = flag })
set_connected flag none = none

-- `MarkUnrecoverable` and `SetStratumMode`, which the client calls on the connection that it shares
-- with the manager.
abbrev pub marked : Bool → ℕ → Uri → Uri
marked unrecoverable mode uri = record uri {
  is_unrecoverable = unrecoverable || uri.is_unrecoverable;
  stratum_mode = mode;
}

-- The connections, where that of the index is marked.
unfoldable pub mark_at : Bool → ℕ → ℕ → List Uri → List Uri
mark_at unrecoverable mode idx [] = []
mark_at unrecoverable mode zero (uri ∷ uris) = marked unrecoverable mode uri ∷ uris
mark_at unrecoverable mode (suc idx) (uri ∷ uris) = uri ∷ mark_at unrecoverable mode idx uris

abbrev pub mark_client : Bool → ℕ → Option Client → Option Client
mark_client unrecoverable mode none = none
mark_client unrecoverable mode (some client) = some (record client {
  connection = elim client.connection [
    | none ↦ none
    | some uri ↦ some (marked unrecoverable mode uri)
  ];
})

module _ (iequals : Text → Text → Bool) where
  pub data Step : Manager → Manager → Type 0 where
    rotates : (farm : FarmView) (m : Manager) → Step m (rotate_connect farm m).1
    starts : (m : Manager) → Step m (start m)
    stops : (farm : FarmView) (m : Manager) → Step m (stop farm m)
    waited : (m : Manager) → m.running ≡ false → Step m (stop_waited m)
    adds : (uri : Uri) (m : Manager) → Step m (add_connection uri m)
    removes : (idx : ℕ) (m : Manager) → Step m (remove_connection idx m).1
    activates : (idx : ℕ) (m : Manager) → Step m (set_active_connection idx m).1
    activates_string :
        (connstring : Text) (m : Manager)
        → Step m (set_active_connection_string iequals connstring m).1
    socket :
        (flag : Bool) (m : Manager) → Step m (record m { client = set_connected flag m.client })
    marks :
        (unrecoverable : Bool) (mode idx : ℕ) (m : Manager)
        → Step m (record m {
          connections = mark_at unrecoverable mode idx m.connections;
          client = mark_client unrecoverable mode m.client;
        })
    connects : (farm : FarmView) (m : Manager) → Step m (on_connected farm m)
    disconnects : (farm : FarmView) (m : Manager) → Step m (on_disconnected farm m)
    receives : (wp : WorkPackage) (m : Manager) → Step m (on_work_received wp m).1
    accepts : (miner_idx : ℕ) (m : Manager) → Step m (on_solution_accepted miner_idx m)
    fails_over : (ec : Bool) (m : Manager) → Step m (failovertimer_elapsed ec m).1
    submits : (ec : Bool) (m : Manager) → Step m (submithrtimer_elapsed ec m)

  -- The states that a manager with the given settings comes to.
  pub data Reachable (first : Manager) : Manager → Type 0 where
    begins : Reachable first first
    then_step : {m m' : Manager} → Reachable first m → Step m m' → Reachable first m'
