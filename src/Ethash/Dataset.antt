-- ===== src/Ethash/Dataset.antt =====
-- The dataset items of libethash/ethash.cpp and the epoch context of libethash/ethash/ethash.h.
-- `none` is a read outside the light cache.
pub mod Laws
pub mod Sizes
use quai_gpu_miner_archive.Bits.{fnv1 as fnv1_word}
use quai_gpu_miner_archive.Ethash.Hash.{Hash, bytes, fnv1, keccak512}
use quai_gpu_miner_archive.Prelude.{
  ℕ, ◌+◌, ◌*◌, ◌%◌, bit_xor, Option, some, List, ◌++◌, ◌>>=◌, for_range, get_elem?, get_or, set,
  u32,
}

pub record Context : Type 0 where
  pub epoch_number : ℕ
  pub light_cache_num_items : ℕ
  pub light_cache : List Hash
  pub l1_cache : List ℕ
  pub full_dataset_num_items : ℕ

abbrev pub full_dataset_item_parents : ℕ
full_dataset_item_parents = 256

pub record ItemState : Type 0 where
  pub cache : List Hash
  pub num_cache_items : ℕ
  pub seed : ℕ
  pub mix : Hash

-- The constructor.
pub item_state : Context → ℕ → Option ItemState
item_state context index = do
  let seed = u32 index
  item ← get_elem? context.light_cache (index % context.light_cache_num_items)
  let mix = set item 0 (bit_xor (get_or item 0 0) seed)
  some (record {
    cache = context.light_cache;
    num_cache_items = context.light_cache_num_items;
    seed = seed;
    mix = keccak512 (bytes mix);
  })

pub update : ℕ → ItemState → Option ItemState
update round s = do
  let t = fnv1_word (bit_xor s.seed round) (get_or s.mix (round % 16) 0)
  parent ← get_elem? s.cache (t % s.num_cache_items)
  some (record s { mix = fnv1 s.mix parent })

pub final : ItemState → Hash
final s = keccak512 (bytes s.mix)

unfoldable pub calculate_dataset_item_512 : Context → ℕ → Option Hash
unfolding item_state update final
calculate_dataset_item_512 context index = do
  item0 ← item_state context index
  item0 ← for_range full_dataset_item_parents 0 update item0
  some (final item0)

-- The two items of a 1024-bit one are computed in step.
pub update_two : ℕ → ItemState × ItemState → Option (ItemState × ItemState)
update_two round (item0, item1) = do
  item0 ← update round item0
  item1 ← update round item1
  some (item0, item1)

unfoldable pub calculate_dataset_item_1024 : Context → ℕ → Option Hash
unfolding item_state update_two final
calculate_dataset_item_1024 context index = do
  item0 ← item_state context (index * 2)
  item1 ← item_state context (index * 2 + 1)
  (item0, item1) ← for_range full_dataset_item_parents 0 update_two (item0, item1)
  some (final item0 ++ final item1)

-- The four items of a 2048-bit one, paired two and two.
pub update_four :
    ℕ
    → (ItemState × ItemState) × (ItemState × ItemState)
    → Option ((ItemState × ItemState) × (ItemState × ItemState))
update_four round ((item0, item1), (item2, item3)) = do
  item0 ← update round item0
  item1 ← update round item1
  item2 ← update round item2
  item3 ← update round item3
  some ((item0, item1), (item2, item3))

unfoldable pub calculate_dataset_item_2048 : Context → ℕ → Option Hash
unfolding item_state update_four final
calculate_dataset_item_2048 context index = do
  item0 ← item_state context (index * 4)
  item1 ← item_state context (index * 4 + 1)
  item2 ← item_state context (index * 4 + 2)
  item3 ← item_state context (index * 4 + 3)
  ((item0, item1), (item2, item3)) ←
      for_range full_dataset_item_parents 0 update_four ((item0, item1), (item2, item3))
  some (final item0 ++ final item1 ++ final item2 ++ final item3)
