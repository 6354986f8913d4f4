-- ===== src/PoolManager/Retries.antt =====
-- What holds of every state that the manager of libpoolprotocols/PoolManager.cpp comes to.
use quai_gpu_miner_archive.PoolManager.Steps.{mark_at, Step, Reachable}
use quai_gpu_miner_archive.PoolManager.Safety.{
  set_active_connection_string-none, set_active_connection_string-state, first_match-lt,
  length-erase,
}
use quai_gpu_miner_archive.Prelude.{
  ℕ, zero, suc, ◌<◌, ◌≡◌, refl, ap, ◌⊎◌, inl, inr, Bool, true, false, some, List, [], ◌∷◌, arith,
  Option-cases, length, get_elem?, length-append, get_elem?-some_lt,
}
use quai_gpu_miner_archive.PoolManager.{Uri, Manager, WorkPackage, FarmView, Text}
use quai_gpu_miner_archive.PoolManager.Rotation.{
  start, exit, launch, select_connection, discard_or_rotate, rotate_connect, check_bounds,
}
use quai_gpu_miner_archive.PoolManager.Connections.{
  add_connection, remove_connection, set_active_connection, set_active_connection_common,
  set_active_connection_string, first_match, get_active_connection,
}
use quai_gpu_miner_archive.PoolManager.Handlers.{
  on_connected, on_disconnected, epoch_of, on_solution_accepted, stop, stop_waited,
  failovertimer_elapsed, submithrtimer_elapsed, on_work_received, accept_work, active_stratum_mode,
  is_new_epoch,
}

-- The active index is that of a connection, or 0, and no attempt has been counted.
abbrev pub IsSound : Manager → Type 0
IsSound m =
    ((m.active_connection_idx < length m.connections) ⊎ (m.active_connection_idx ≡ 0))
    × (m.connection_attempt ≡ 0)

module _ (m : Manager) (s : IsSound m) where
  start-IsSound : IsSound (start m)
  unfolding start
  start-IsSound = s

  add_connection-IsSound : (uri : Uri) → IsSound (add_connection uri m)
  unfolding add_connection
  add_connection-IsSound uri = ground (arith, length-append m.connections (uri ∷ []), s)

  remove_connection-IsSound : (idx : ℕ) → IsSound (remove_connection idx m).1
  unfolding remove_connection
  remove_connection-IsSound idx = ground (arith, length-erase m.connections idx)

  set_active_connection_common-IsSound :
      (idx : ℕ) → idx < length m.connections → IsSound (set_active_connection_common idx m).1
  unfolding set_active_connection_common
  set_active_connection_common-IsSound idx lt = ground arith

  set_active_connection-IsSound : (idx : ℕ) → IsSound (set_active_connection idx m).1
  unfolding set_active_connection
  set_active_connection-IsSound idx = ground (arith, set_active_connection_common-IsSound idx)

  stop-IsSound : (farm : FarmView) → IsSound (stop farm m)
  unfolding stop
  stop-IsSound farm = ground arith

  on_connected-IsSound : (farm : FarmView) → IsSound (on_connected farm m)
  unfolding on_connected
  on_connected-IsSound farm = ground arith

  on_disconnected-IsSound : (farm : FarmView) → IsSound (on_disconnected farm m)
  unfolding on_disconnected
  on_disconnected-IsSound farm = ground arith

  on_solution_accepted-IsSound : (miner_idx : ℕ) → IsSound (on_solution_accepted miner_idx m)
  unfolding on_solution_accepted
  on_solution_accepted-IsSound miner_idx = s

  stop_waited-IsSound : IsSound (stop_waited m)
  unfolding stop_waited
  stop_waited-IsSound = s

  failovertimer_elapsed-IsSound : (ec : Bool) → IsSound (failovertimer_elapsed ec m).1
  unfolding failovertimer_elapsed
  failovertimer_elapsed-IsSound ec = ground arith

  submithrtimer_elapsed-IsSound : (ec : Bool) → IsSound (submithrtimer_elapsed ec m)
  unfolding submithrtimer_elapsed
  submithrtimer_elapsed-IsSound ec = ground arith

  epoch_of-IsSound : (wp : WorkPackage) → IsSound (epoch_of wp m)
  unfolding epoch_of
  epoch_of-IsSound wp = ground arith

  discard_or_rotate-IsSound :
      (uri : Uri)
      → m.active_connection_idx < length m.connections
      → IsSound (discard_or_rotate uri m)
  unfolding discard_or_rotate
  discard_or_rotate-IsSound uri lt =
      ground (arith, length-erase m.connections m.active_connection_idx)

  select_connection-IsSound : (farm : FarmView) → IsSound (select_connection farm m).1
  unfolding select_connection launch exit
  select_connection-IsSound farm = ground arith

  check_bounds-lt :
      (uri : Uri)
      → get_elem? (check_bounds m).connections (check_bounds m).active_connection_idx ≡ some uri
      → (check_bounds m).active_connection_idx < length (check_bounds m).connections
  check_bounds-lt uri e = get_elem?-some_lt _ _ uri e

  check_bounds-IsSound : IsSound (check_bounds m)
  check_bounds-IsSound = ground arith

module _ (m : Manager) (s : IsSound m) where
  rotate_connect-IsSound : (farm : FarmView) → IsSound (rotate_connect farm m).1
  unfolding rotate_connect
  rotate_connect-IsSound farm =
      elim (Option-cases
        (get_elem? (check_bounds m).connections (check_bounds m).active_connection_idx)) [
          | inl nothing ↦ ground (arith, check_bounds-IsSound m s)
          | inr (uri, found) ↦
              let discarded =
                discard_or_rotate-IsSound (check_bounds m) (check_bounds-IsSound m s) uri
                  (check_bounds-lt m s uri found) in
              ground (
                arith,
                check_bounds-IsSound m s,
                select_connection-IsSound (discard_or_rotate uri (check_bounds m)) discarded farm,
              )
        ]

  accept_work-IsSound : (new_epoch : Bool) (wp : WorkPackage) → IsSound (accept_work new_epoch wp m)
  unfolding accept_work
  accept_work-IsSound new_epoch wp = ground (arith, epoch_of-IsSound m s wp)

  on_work_received-IsSound : (wp : WorkPackage) → IsSound (on_work_received wp m).1
  unfolding on_work_received
  on_work_received-IsSound wp = elim (Option-cases (active_stratum_mode m)) [
    | inl null ↦ ground (arith, accept_work-IsSound true wp)
    | inr (mode, e) ↦ ground (
      arith,
      accept_work-IsSound true wp,
      accept_work-IsSound (is_new_epoch mode wp m.current_wp) wp,
    )
  ]

  module _ (iequals : Text → Text → Bool) where
    set_active_connection_string-IsSound :
        (connstring : Text) → IsSound (set_active_connection_string iequals connstring m).1
    set_active_connection_string-IsSound connstring =
        elim (Option-cases (first_match iequals connstring 0 m.connections)) [
          | inl nothing ↦ rw (set_active_connection_string-none iequals connstring m nothing) s
          | inr (idx, found) ↦
              rw (set_active_connection_string-state iequals connstring m idx found) (
                set_active_connection_common-IsSound m s idx
                  (omega (arith, (first_match-lt iequals connstring 0 m.connections idx found).1)))
        ]

length-mark_at :
    (unrecoverable : Bool) (mode idx : ℕ) (uris : List Uri)
    → length (mark_at unrecoverable mode idx uris) ≡ length uris
unfolding mark_at
length-mark_at unrecoverable mode zero [] = refl
length-mark_at unrecoverable mode (suc idx) [] = refl
length-mark_at unrecoverable mode zero (uri ∷ uris) = refl
length-mark_at unrecoverable mode (suc idx) (uri ∷ uris) =
    ap suc (length-mark_at unrecoverable mode idx uris)

Step-IsSound :
    (iequals : Text → Text → Bool) {m m' : Manager} → Step iequals m m' → IsSound m → IsSound m'
Step-IsSound iequals (Step.rotates farm m) s = rotate_connect-IsSound m s farm
Step-IsSound iequals (Step.starts m) s = start-IsSound m s
Step-IsSound iequals (Step.stops farm m) s = stop-IsSound m s farm
Step-IsSound iequals (Step.waited m e) s = stop_waited-IsSound m s
Step-IsSound iequals (Step.adds uri m) s = add_connection-IsSound m s uri
Step-IsSound iequals (Step.removes idx m) s = remove_connection-IsSound m s idx
Step-IsSound iequals (Step.activates idx m) s = set_active_connection-IsSound m s idx
Step-IsSound iequals (Step.activates_string connstring m) s =
    set_active_connection_string-IsSound m s iequals connstring
Step-IsSound iequals (Step.socket flag m) s = s
Step-IsSound iequals (Step.marks unrecoverable mode idx m) s =
    rw (length-mark_at unrecoverable mode idx m.connections) s
Step-IsSound iequals (Step.connects farm m) s = on_connected-IsSound m s farm
Step-IsSound iequals (Step.disconnects farm m) s = on_disconnected-IsSound m s farm
Step-IsSound iequals (Step.receives wp m) s = on_work_received-IsSound m s wp
Step-IsSound iequals (Step.accepts miner_idx m) s = on_solution_accepted-IsSound m s miner_idx
Step-IsSound iequals (Step.fails_over ec m) s = failovertimer_elapsed-IsSound m s ec
Step-IsSound iequals (Step.submits ec m) s = submithrtimer_elapsed-IsSound m s ec

-- In every state that the manager comes to from one whose active index is that of a connection or
-- 0 and that has counted no connection attempt, the active index is still that of a connection or
-- 0, and the count of attempts is 0.
pub Reachable-IsSound :
    (iequals : Text → Text → Bool) {first m : Manager}
    → IsSound first
    → Reachable iequals first m
    → IsSound m
Reachable-IsSound iequals s (Reachable.begins) = s
Reachable-IsSound iequals s (Reachable.then_step reached step) =
    Step-IsSound iequals step (Reachable-IsSound iequals s reached)

-- In every state that the manager comes to from one whose active index is that of a connection or
-- 0 and that has counted no attempt, where at least one retry is allowed, `rotateConnect` neither
-- discards nor leaves an active connection that is not marked unrecoverable, however often it has
-- failed.
pub rotate_connect-keeps :
    (iequals : Text → Text → Bool) {first m : Manager}
    → IsSound first
    → Reachable iequals first m
    → (farm : FarmView) (uri : Uri) → get_active_connection m ≡ some uri
    → uri.is_unrecoverable ≡ false
    → 0 < m.connection_max_retries
    → ((rotate_connect farm m).1.connections ≡ m.connections)
      × ((rotate_connect farm m).1.active_connection_idx ≡ m.active_connection_idx)
unfolding rotate_connect select_connection discard_or_rotate launch exit get_active_connection
rotate_connect-keeps iequals {first} {m} s reached farm uri e recoverable retries =
    let sound = Reachable-IsSound iequals s reached in
    ground (arith, get_elem?-some_lt m.connections m.active_connection_idx uri e)
