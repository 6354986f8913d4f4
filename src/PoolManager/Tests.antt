-- ===== src/PoolManager/Tests.antt =====
-- The theorems on libpoolprotocols/PoolManager.cpp for a manager with three connections.
use quai_gpu_miner_archive.PoolManager.{
  Uri, FarmView, Manager, WorkPackage, no_work, initial, text_equal, stratum, not_found,
}
use quai_gpu_miner_archive.PoolManager.Rotation.{rotate_connect, start}
use quai_gpu_miner_archive.PoolManager.Rotation.Outcomes.{IsLaunched, IsEnded, rotate_connect_lem}
use quai_gpu_miner_archive.PoolManager.Connections.{
  remove_connection, set_active_connection_string, get_active_connection,
}
use quai_gpu_miner_archive.PoolManager.Safety.{
  remove_connection-get_active_connection, set_active_connection_string-throws, IsFirst,
}
use quai_gpu_miner_archive.PoolManager.Steps.{Step, Reachable}
use quai_gpu_miner_archive.PoolManager.Retries.{IsSound, Reachable-IsSound, rotate_connect-keeps}
use quai_gpu_miner_archive.Ethash.Epoch.{zero_hash}
use quai_gpu_miner_archive.Prelude.{
  ℕ, zero, suc, ◌<◌, ◌≡◌, refl, sym, ap, ◌⊎◌, inr, true, false, Option, none, some, [], ◌∷◌, arith,
  get_elem?, replicate,
}

abbrev pool : ℕ → Uri
pool name = record {
  str = name ∷ [];
  host = name ∷ [];
  family = stratum;
  is_unrecoverable = false;
  stratum_mode = 1;
}

abbrev manager : Manager
manager = initial (pool 97 ∷ pool 98 ∷ pool 99 ∷ []) 0 false 60 10

-- With the second connection active.
abbrev second_active : Manager
second_active = record manager {
  active_connection_idx = 1;
  client = some (record { connected = true; connection = some (pool 98) });
}

abbrev farm : FarmView
farm = record { is_mining = true; paused = false; ergodicity = 0 }

rotate_connect_lem_example :
    ((rotate_connect farm manager).0 ≡ none)
    × (((uri : Uri) × IsLaunched uri manager (rotate_connect farm manager).1)
        ⊎ IsEnded farm manager (rotate_connect farm manager).1)
rotate_connect_lem_example = rotate_connect_lem farm manager refl (omega arith)

remove_connection-get_active_connection_example :
    get_active_connection (remove_connection 0 second_active).1
    ≡ get_active_connection second_active
remove_connection-get_active_connection_example =
    remove_connection-get_active_connection 0 second_active

third-IsFirst : IsFirst text_equal (99 ∷ []) (pool 97 ∷ pool 98 ∷ pool 99 ∷ []) 2
unfolding text_equal
third-IsFirst = record { uri = pool 99; is_there = refl; has_text = refl; first = before }
  where
    before :
        (j : ℕ) (other : Uri)
        → j < 2
        → get_elem? (pool 97 ∷ pool 98 ∷ pool 99 ∷ []) j ≡ some other
        → text_equal other.str (99 ∷ []) ≡ false
    before zero other lt e =
        ap (λ (o : Option Uri). elim o [ none ↦ false | some u ↦ text_equal u.str (99 ∷ []) ])
          (sym e)
    before (suc zero) other lt e =
        ap (λ (o : Option Uri). elim o [ none ↦ false | some u ↦ text_equal u.str (99 ∷ []) ])
          (sym e)
    before (suc (suc j)) other lt e = absurd (omega arith)

set_active_connection_string-throws_example :
    ((set_active_connection_string text_equal (99 ∷ []) second_active).0 ≡ some not_found)
    × (get_active_connection (set_active_connection_string text_equal (99 ∷ []) second_active).1
        ≡ some (pool 99))
set_active_connection_string-throws_example =
    set_active_connection_string-throws text_equal (99 ∷ []) second_active 2
      (record { connected = true; connection = some (pool 98) }) third-IsFirst refl refl

abbrev work : WorkPackage
work = record no_work { header = replicate 8 1; epoch = some 4 }

work_given : text_equal (replicate 8 1) zero_hash ≡ false
unfolding text_equal
work_given = refl

started : Reachable text_equal manager (start manager)
started = Reachable.then_step Reachable.begins (Step.starts manager)

Reachable-IsSound_example : IsSound (start manager)
Reachable-IsSound_example = Reachable-IsSound text_equal (inr refl, refl) started

start-active : get_active_connection (start manager) ≡ some (pool 97)
unfolding start get_active_connection
start-active = refl

start-retries : 0 < (start manager).connection_max_retries
unfolding start
start-retries = omega arith

rotate_connect-keeps_example :
    ((rotate_connect farm (start manager)).1.connections ≡ (start manager).connections)
    × ((rotate_connect farm (start manager)).1.active_connection_idx
        ≡ (start manager).active_connection_idx)
rotate_connect-keeps_example =
    rotate_connect-keeps text_equal (inr refl, refl) started farm (pool 97) start-active refl
      start-retries
