-- ===== src/Farm/Work.antt =====
-- `setWork` and `shuffle` of libethcore/Farm.cpp. The number that the random device gives is an
-- argument, and so is the floating-point expression for the width of a segment, which is that of
-- `log2(pow(2, 64 - exSizeBytes * 4) / m_miners.size())`.
use quai_gpu_miner_archive.Ethash.Context.{FullContext}
use quai_gpu_miner_archive.Ethash.Epoch.{
  calculate_full_dataset_num_items, get_light_cache_size, get_full_dataset_size,
}
use quai_gpu_miner_archive.EthashAux.{WorkPackage, EpochContext}
use quai_gpu_miner_archive.Managed.{get_global_epoch_context}
use quai_gpu_miner_archive.Miner.{Miner, set_work as set_miner_work, set_epoch as set_miner_epoch}
use quai_gpu_miner_archive.Farm.{Farm}
use quai_gpu_miner_archive.Prelude.{
  ℕ, ◌+◌, Bool, true, false, ◌&&◌, Option, none, some, List, [], ◌∷◌, map, ltb, ◌==◌, if◌then◌else◌,
  ◌>>=◌, length, u64, ◌<<<◌,
}

unfoldable pub shuffle : ℕ → Farm → Farm
shuffle random farm = record farm { nonce_scrambler = random }

-- `m_currentWp.epoch != _newWp.epoch`.
abbrev pub same_epoch : Option ℕ → Option ℕ → Bool
same_epoch none none = true
same_epoch (some a) (some b) = a == b
same_epoch _ _ = false

-- `m_currentEc`, from the context of the epoch.
unfoldable pub epoch_context : ℕ → FullContext → Option EpochContext
epoch_context epoch f = do
  dag_num_items ← calculate_full_dataset_num_items epoch
  some (record {
    epoch_number = epoch;
    light_num_items = f.context.light_cache_num_items;
    light_size = get_light_cache_size f.context.light_cache_num_items;
    light_cache = f.context.light_cache;
    dag_num_items = dag_num_items;
    dag_size = get_full_dataset_size dag_num_items;
  })

-- The new epoch of the farm and its miners. `none` is the use of a null pointer, or the context of
-- epoch −1.
unfoldable pub set_epoch : (ℕ → Bool) → ℕ → Option ℕ → Farm → Option Farm
unfolding epoch_context
set_epoch calloc thread epoch farm = do
  epoch ← epoch
  (context, managed) ← get_global_epoch_context calloc false thread epoch farm.managed
  f ← context
  ec ← epoch_context epoch f
  some (record farm {
    current_ec = some ec;
    managed = managed;
    miners = map (set_miner_epoch ec) farm.miners;
  })

-- The loop that deals the segments out, from the miner at `i` on.
unfoldable pub deal : ℕ → ℕ → ℕ → WorkPackage → List Miner → WorkPackage × List Miner
deal start_nonce width i wp [] = (wp, [])
deal start_nonce width i wp (miner ∷ miners) =
    let wp = record wp { start_nonce = u64 (start_nonce + u64 (i <<< width)) } in
    let (last, miners) = deal start_nonce width (i + 1) wp miners in
    (last, set_miner_work wp miner ∷ miners)

-- Every miner gets the new work with a start of its own.
unfoldable pub hand_out : (ℕ → ℕ → ℕ) → WorkPackage → Farm → Farm
unfolding deal
hand_out segment_width new_wp farm =
    let exact = ltb 0 new_wp.ex_size_bytes in
    let start_nonce = if exact then new_wp.start_nonce else farm.nonce_scrambler in
    let width =
      if exact
      then segment_width new_wp.ex_size_bytes (length farm.miners)
      else farm.nonce_segment_width in
    let (last, miners) = deal start_nonce width 0 new_wp farm.miners in
    record farm { current_wp = last; miners = miners; nonce_segment_width = width }

unfoldable pub set_work : (ℕ → ℕ → ℕ) → ℕ → (ℕ → Bool) → ℕ → WorkPackage → Farm → Option Farm
unfolding shuffle set_epoch hand_out
set_work segment_width random calloc thread new_wp farm =
    let changed = set_epoch calloc thread new_wp.epoch farm in
    (if same_epoch farm.current_wp.epoch new_wp.epoch then some farm else changed) >>= λ farm.
    let farm = record farm { current_wp = new_wp } in
    let shuffles = (farm.settings.ergodicity == 2) && (new_wp.ex_size_bytes == 0) in
    some (hand_out segment_width new_wp (if shuffles then shuffle random farm else farm))
