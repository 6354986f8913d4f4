-- ===== src/PoolManager/Handlers/Work.antt =====
-- What the handler of new work of libpoolprotocols/PoolManager.cpp does.
use quai_gpu_miner_archive.Ethash.Epoch.{zero_hash}
use quai_gpu_miner_archive.PoolManager.{Manager, WorkPackage, text_equal, farm_set_work}
use quai_gpu_miner_archive.PoolManager.Handlers.{
  on_work_received, accept_work, epoch_of, is_new_epoch, active_stratum_mode,
}
use quai_gpu_miner_archive.Prelude.{
  ℕ, ◌+◌, ◌≡◌, ◌⊎◌, inl, inr, true, false, none, some, arith, Bool-cases, Option-cases, get_elem?,
  u32,
}

module _ (wp : WorkPackage) (m : Manager) where
  epoch_of_lem :
      ((epoch_of wp m).current_wp.header ≡ wp.header)
      × ((epoch_of wp m).current_wp.seed ≡ wp.seed)
      × ((epoch_of wp m).calls ≡ m.calls)
      × ((epoch_of wp m).epoch_changes ≡ m.epoch_changes)
  unfolding epoch_of
  epoch_of_lem = ground arith

  -- The work is now the current one, and the farm's.
  abbrev pub IsTaken : Manager → Type 0
  IsTaken m' =
      (m'.current_wp.header ≡ wp.header)
      × (m'.current_wp.seed ≡ wp.seed)
      × (get_elem? m'.calls 0 ≡ some (farm_set_work m'.current_wp))

  accept_work-new :
      IsTaken (accept_work true wp m)
      × ((accept_work true wp m).epoch_changes ≡ u32 (m.epoch_changes + 1))
  unfolding accept_work
  accept_work-new = ground (arith, epoch_of_lem)

  accept_work-same :
      IsTaken (accept_work false wp m)
      × ((accept_work false wp m).epoch_changes ≡ m.epoch_changes)
      × ((accept_work false wp m).current_wp.epoch ≡ m.current_wp.epoch)
  unfolding accept_work
  accept_work-same = ground arith

  -- Work whose header is not zero, from a client that has its connection, becomes the current work and
  -- is given to the farm. It counts as a change of epoch, unless the current epoch is known and the
  -- work is not of another one: then the current epoch is kept.
  pub on_work_received_lem :
      (mode : ℕ)
      → text_equal wp.header zero_hash ≡ false
      → active_stratum_mode m ≡ some mode
      → ((on_work_received wp m).0 ≡ none)
        × IsTaken (on_work_received wp m).1
        × ((((m.current_wp.epoch ≡ none) ⊎ (is_new_epoch mode wp m.current_wp ≡ true))
              × ((on_work_received wp m).1.epoch_changes ≡ u32 (m.epoch_changes + 1)))
            ⊎ ((is_new_epoch mode wp m.current_wp ≡ false)
                × ((on_work_received wp m).1.epoch_changes ≡ m.epoch_changes)
                × ((on_work_received wp m).1.current_wp.epoch ≡ m.current_wp.epoch)))
  unfolding on_work_received
  on_work_received_lem mode given e = elim (Option-cases m.current_wp.epoch) [
    | inl unknown ↦ ground (arith, accept_work-new)
    | inr (epoch, known) ↦ elim (Bool-cases (is_new_epoch mode wp m.current_wp)) [
      | inl new_epoch ↦ ground (arith, accept_work-new)
      | inr old ↦ ground (arith, accept_work-same)
    ]
  ]
