-- ===== src/PoolManager/Rotation/Outcomes.antt =====
-- What `PoolManager::rotateConnect` of libpoolprotocols/PoolManager.cpp comes to.
use quai_gpu_miner_archive.PoolManager.{
  Uri, FarmView, Manager, is_connected, text_equal, exit_host, client_connect, client_new,
  raise_sigterm, farm_stop,
}
use quai_gpu_miner_archive.PoolManager.Connections.{get_active_connection}
use quai_gpu_miner_archive.PoolManager.Rotation.{
  rotate_connect, exit, launch, select_connection, discard_or_rotate, check_bounds,
}
use quai_gpu_miner_archive.PoolManager.Safety.{length-erase}
use quai_gpu_miner_archive.Prelude.{
  ◌<◌, ◌≡◌, sym, ◌⊎◌, inl, inr, false, none, some, ◌∷◌, arith, if◌then◌else◌, length, get_elem?,
  get_elem?-lt, get_elem?-some_lt,
}

-- The manager has a new client, made for the connection that is now active and told to connect to it.
abbrev pub IsLaunched : Uri → Manager → Manager → Type 0
IsLaunched uri m m' =
    (get_active_connection m' ≡ some uri)
    × (text_equal uri.host exit_host ≡ false)
    × (m'.client ≡ some (record { connected = false; connection = some uri }))
    × (m'.calls ≡ client_connect ∷ client_new uri.family ∷ m.calls)

-- The manager has stopped, and the farm if it was mining, and has told the process to end.
abbrev pub IsEnded : FarmView → Manager → Manager → Type 0
IsEnded farm m m' =
    (m'.running ≡ false)
    × (m'.calls ≡ raise_sigterm ∷ (if farm.is_mining then farm_stop ∷ m.calls else m.calls))

module _ (farm : FarmView) where
  select_connection-empty :
      (m : Manager)
      → length m.connections ≡ 0
      → ((select_connection farm m).0 ≡ none) × IsEnded farm m (select_connection farm m).1
  unfolding select_connection exit
  select_connection-empty m e = ground arith

  select_connection-some :
      (m : Manager) (uri : Uri)
      → get_active_connection m ≡ some uri
      → ((select_connection farm m).0 ≡ none)
        × (IsLaunched uri m (select_connection farm m).1
            ⊎ IsEnded farm m (select_connection farm m).1)
  unfolding select_connection exit launch get_active_connection
  select_connection-some m uri e =
      ground (arith, get_elem?-some_lt m.connections m.active_connection_idx uri e)

  -- After the discarding, the active index is within bounds or there is no connection left.
  discard_or_rotate-bounds :
      (uri : Uri) (m : Manager)
      → m.active_connection_idx < length m.connections
      → (length (discard_or_rotate uri m).connections ≡ 0)
        ⊎ ((discard_or_rotate uri m).active_connection_idx
            < length (discard_or_rotate uri m).connections)
  unfolding discard_or_rotate
  discard_or_rotate-bounds uri m lt =
      ground (arith, length-erase m.connections m.active_connection_idx lt)

  discard_or_rotate-calls : (uri : Uri) (m : Manager) → (discard_or_rotate uri m).calls ≡ m.calls
  unfolding discard_or_rotate
  discard_or_rotate-calls uri m = ground arith

  rotate_connect-select :
      (m : Manager) (uri : Uri)
      → is_connected m ≡ false
      → get_elem? (check_bounds m).connections (check_bounds m).active_connection_idx ≡ some uri
      → rotate_connect farm m ≡ select_connection farm (discard_or_rotate uri (check_bounds m))
  unfolding rotate_connect
  rotate_connect-select m uri idle found = ground arith

  -- What a selection comes to, for a manager that has made the same calls as `m`.
  select_connection_lem :
      (m next : Manager)
      → next.calls ≡ m.calls
      → (length next.connections ≡ 0) ⊎ (next.active_connection_idx < length next.connections)
      → ((select_connection farm next).0 ≡ none)
        × (((uri : Uri) × IsLaunched uri m (select_connection farm next).1)
            ⊎ IsEnded farm m (select_connection farm next).1)
  select_connection_lem m next same (inl empty) =
      let (ok, ended) = select_connection-empty next empty in (ok, inr (rw (sym same) ended))
  select_connection_lem m next same (inr lt) =
      let (uri, found) = get_elem?-lt next.connections next.active_connection_idx lt in
      let (ok, result) = select_connection-some next uri (unfold get_active_connection in found) in
      (
        ok,
        elim result [
          | inl launched ↦ inl (uri, rw (sym same) launched)
          | inr ended ↦ inr (rw (sym same) ended)
        ],
      )

  -- With at least one connection and no connected client, `rotateConnect` throws nothing: it launches
  -- a client for the connection that it leaves active, or it ends the program.
  pub rotate_connect_lem :
      (m : Manager)
      → is_connected m ≡ false
      → 0 < length m.connections
      → ((rotate_connect farm m).0 ≡ none)
        × (((uri : Uri) × IsLaunched uri m (rotate_connect farm m).1)
            ⊎ IsEnded farm m (rotate_connect farm m).1)
  rotate_connect_lem m idle pos =
      let within = check_bounds m in
      let lt : within.active_connection_idx < length within.connections = ground arith in
      let (uri, found) = get_elem?-lt within.connections within.active_connection_idx lt in
      let next = discard_or_rotate uri within in
      let same : next.calls ≡ m.calls = ground (arith, discard_or_rotate-calls uri within) in
      rw (rotate_connect-select m uri idle found)
        (select_connection_lem m next same (discard_or_rotate-bounds uri within lt))
