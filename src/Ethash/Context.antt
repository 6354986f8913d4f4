-- ===== src/Ethash/Context.antt =====
-- `generic::create_epoch_context` of libethash/ethash.cpp. Whether `calloc` has the memory is a
-- parameter. The allocated block is zero; it holds the light cache and behind it the full dataset,
-- or only the part of it that is the L1 cache. The outer `none` is an access outside the block, the
-- inner one is the null pointer.
pub mod Filling
pub mod Pairs
pub mod Laws
use quai_gpu_miner_archive.Ethash.Hash.{Hash}
use quai_gpu_miner_archive.Ethash.Dataset.{Context, calculate_dataset_item_2048}
use quai_gpu_miner_archive.Ethash.Cache.{build_light_cache, store}
use quai_gpu_miner_archive.Ethash.Epoch.{
  calculate_light_cache_num_items, calculate_full_dataset_num_items, calculate_epoch_seed,
  get_light_cache_size,
}
use quai_gpu_miner_archive.Prelude.{
  ℕ, ◌+◌, ◌*◌, ◌/◌, Bool, Option, none, some, List, [], ◌∷◌, ◌++◌, if◌then◌else◌, ◌>>=◌, for_range,
  take, drop, replicate,
}

abbrev pub l1_cache_size : ℕ
l1_cache_size = 16 * 1024

-- The 256-byte items of the L1 cache.
abbrev pub l1_items : ℕ
l1_items = l1_cache_size / 256

pub record FullContext : Type 0 where
  pub context : Context
  pub full_dataset : List Hash

-- `full_dataset_2048[i] = ...`, on the block seen as 1024-bit items.
unfoldable pub store_2048 : List Hash → ℕ → Hash → Option (List Hash)
store_2048 items i item = do
  items ← store items (2 * i) (take 32 item)
  store items (2 * i + 1) (drop 32 item)

pub fill_l1 : Context → ℕ → List Hash → Option (List Hash)
unfolding store_2048
fill_l1 context i items = do item ← calculate_dataset_item_2048 context i; store_2048 items i item

abbrev pub concat_items : List Hash → List ℕ
concat_items [] = []
concat_items (h ∷ hs) = h ++ concat_items hs

unfoldable pub create_epoch_context : (ℕ → Bool) → ℕ → Bool → Option (Option FullContext)
unfolding fill_l1
create_epoch_context calloc epoch_number full = do
  light_cache_num_items ← calculate_light_cache_num_items epoch_number
  full_dataset_num_items ← calculate_full_dataset_num_items epoch_number
  let light_cache_size = get_light_cache_size light_cache_num_items
  let full_dataset_size = if full then full_dataset_num_items * 128 else l1_cache_size
  let alloc_size = 64 + light_cache_size + full_dataset_size
  let built = do
    light_cache ←
        build_light_cache (replicate light_cache_num_items (replicate 16 0)) light_cache_num_items
          (calculate_epoch_seed epoch_number)
    let context : Context = record {
      epoch_number = epoch_number;
      light_cache_num_items = light_cache_num_items;
      light_cache = light_cache;
      l1_cache = [];
      full_dataset_num_items = full_dataset_num_items;
    }
    items ←
        for_range l1_items 0 (fill_l1 context)
          (replicate (full_dataset_size / 128) (replicate 32 0))
    let l1_cache = concat_items (take (l1_cache_size / 128) items)
    some (
        some (record {
          context = record context { l1_cache = l1_cache };
          full_dataset = if full then items else [];
        }))
  if calloc alloc_size then built else some none
