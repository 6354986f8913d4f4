-- ===== src/Ethash/Dataset/Sizes.antt =====
-- Reads of the light cache by the dataset items of libethash/ethash.cpp, and their sizes.
use native.Mathlib.Nat.{mod-lt}
use quai_gpu_miner_archive.Ethash.Hash.{IsHash512, IsHash1024, IsHash2048}
use quai_gpu_miner_archive.Ethash.Hash.Sizes.{keccak512-IsHash512, length-fnv1}
use quai_gpu_miner_archive.Ethash.Cache.Laws.{IsCache, item-IsHash512}
use quai_gpu_miner_archive.Ethash.Dataset.{
  Context, ItemState, item_state, update, calculate_dataset_item_512, calculate_dataset_item_1024,
  calculate_dataset_item_2048,
}
use quai_gpu_miner_archive.Ethash.Dataset.Laws.{
  calculate_dataset_item_1024-512, calculate_dataset_item_2048-512,
}
use quai_gpu_miner_archive.Prelude.{
  ℕ, ◌+◌, ◌*◌, ◌%◌, ◌<◌, ◌≡◌, refl, sym, ◌∙◌, ◌++◌, arith, for_range, Returns, Returns->>=,
  for_range-Returns, get_elem?, length-append,
}

-- A context whose light cache has the stated number of items, and at least one.
pub record IsContext (context : Context) : Type 0 where
  pub some_items : 0 < context.light_cache_num_items
  pub is_cache : IsCache context.light_cache_num_items context.light_cache

record IsItem (context : Context) (s : ItemState) : Type 0 where
  cache : s.cache ≡ context.light_cache
  count : s.num_cache_items ≡ context.light_cache_num_items
  mix : IsHash512 s.mix

module _ (context : Context) (c : IsContext context) where
  item_state-IsItem : (index : ℕ) → Returns (IsItem context) (item_state context index)
  unfolding item_state
  item_state-IsItem index =
      Returns->>= IsHash512 (IsItem context)
        (get_elem? context.light_cache (index % context.light_cache_num_items)) _
        (item-IsHash512 context.light_cache_num_items context.light_cache _
          (mod-lt index c.some_items) c.is_cache)
        λ item h. record { cache = refl; count = refl; mix = keccak512-IsHash512 _ }

  update-IsItem :
      (round : ℕ) (s : ItemState) → IsItem context s → Returns (IsItem context) (update round s)
  unfolding update
  update-IsItem round s h =
      rw (h.cache, h.count)
        (Returns->>= IsHash512 (IsItem context) (get_elem? context.light_cache _) _
          (item-IsHash512 context.light_cache_num_items context.light_cache _
            (mod-lt _ c.some_items) c.is_cache)
          λ parent p. record {
            cache = refl;
            count = refl;
            mix = length-fnv1 s.mix parent (h.mix ∙ sym p) ∙ h.mix;
          })

  -- For a context whose light cache has the stated number of items, at least one, every 512-bit
  -- item is computed without a read outside the light cache, and has 16 words.
  pub calculate_dataset_item_512-IsHash512 :
      (index : ℕ) → Returns IsHash512 (calculate_dataset_item_512 context index)
  unfolding calculate_dataset_item_512
  calculate_dataset_item_512-IsHash512 index =
      Returns->>= (IsItem context) IsHash512 (item_state context index) _ (item_state-IsItem index)
        λ s h.
          Returns->>= (IsItem context) IsHash512 (for_range 256 0 update s) _
            (for_range-Returns (IsItem context) update 256 (λ j t _ p. update-IsItem j t p) 256 0 s
              (omega arith) h)
            λ t p. keccak512-IsHash512 _

  -- For a context whose light cache has the stated number of items, at least one, every 1024-bit
  -- item is computed without a read outside the light cache, and has 32 words.
  pub calculate_dataset_item_1024-IsHash1024 :
      (index : ℕ) → Returns IsHash1024 (calculate_dataset_item_1024 context index)
  calculate_dataset_item_1024-IsHash1024 index =
      rw (calculate_dataset_item_1024-512 context index) (
        Returns->>= IsHash512 IsHash1024 _ _ (calculate_dataset_item_512-IsHash512 (index * 2))
          λ h0 p0.
            Returns->>= IsHash512 IsHash1024 _ _
              (calculate_dataset_item_512-IsHash512 (index * 2 + 1))
              λ h1 p1. length-append h0 h1 ∙ omega arith)

  -- For a context whose light cache has the stated number of items, at least one, every 2048-bit
  -- item is computed without a read outside the light cache, and has 64 words.
  pub calculate_dataset_item_2048-IsHash2048 :
      (index : ℕ) → Returns IsHash2048 (calculate_dataset_item_2048 context index)
  calculate_dataset_item_2048-IsHash2048 index =
      rw (calculate_dataset_item_2048-512 context index) (
        Returns->>= IsHash512 IsHash2048 _ _ (calculate_dataset_item_512-IsHash512 (index * 4))
          λ h0 p0.
            Returns->>= IsHash512 IsHash2048 _ _
              (calculate_dataset_item_512-IsHash512 (index * 4 + 1))
              λ h1 p1.
                Returns->>= IsHash512 IsHash2048 _ _
                  (calculate_dataset_item_512-IsHash512 (index * 4 + 2))
                  λ h2 p2.
                    Returns->>= IsHash512 IsHash2048 _ _
                      (calculate_dataset_item_512-IsHash512 (index * 4 + 3))
                      λ h3 p3. omega (
                        arith,
                        length-append {0} ((h0 ++ h1) ++ h2) h3,
                        length-append {0} (h0 ++ h1) h2,
                        length-append {0} h0 h1,
                      ))
