-- ===== src/Ethash/Context/Laws.antt =====
-- The contexts that generic::create_epoch_context of libethash/ethash.cpp returns.
use quai_gpu_miner_archive.Primes.Laws.{
  IsLargestPrime, IsLargestPrime-le, first_full_dataset-IsPrime,
}
use quai_gpu_miner_archive.Ethash.Cache.Laws.{IsCache, generic_build_light_cache-IsCache}
use quai_gpu_miner_archive.Ethash.Hash.Sizes.{keccak512-IsHash512}
use quai_gpu_miner_archive.Ethash.Epoch.{
  calculate_light_cache_num_items, calculate_full_dataset_num_items, get_light_cache_size,
  calculate_epoch_seed,
}
use quai_gpu_miner_archive.Ethash.Epoch.Sizes.{
  calculate_light_cache_num_items-IsLargestPrime, calculate_full_dataset_num_items-IsLargestPrime,
}
use quai_gpu_miner_archive.Ethash.Hash.{Hash, keccak512}
use quai_gpu_miner_archive.Ethash.Cache.{build_light_cache}
use quai_gpu_miner_archive.Ethash.Dataset.{
  Context, calculate_dataset_item_1024, calculate_dataset_item_2048,
}
use quai_gpu_miner_archive.Ethash.Dataset.Sizes.{IsContext}
use quai_gpu_miner_archive.Ethash.Kernel.Lazy.{Agrees, IsFilled, IsDataset}
use quai_gpu_miner_archive.Ethash.Context.{
  concat_items, FullContext, fill_l1, create_epoch_context, calculate_epoch_seed,
  calculate_dataset_item_2048,
}
use quai_gpu_miner_archive.Ethash.Context.Filling.{fresh-IsCache, fill_loop-IsFilled}
use quai_gpu_miner_archive.Ethash.Context.Pairs.{
  IsPairs, IsPaired, fill_loop-IsPairs, length-concat_items,
}
use quai_gpu_miner_archive.Prelude.{
  ℕ, ◌+◌, ◌*◌, ◌/◌, ◌≤◌, ◌<◌, ◌≡◌, refl, ◌∙◌, inl, inr, Bool, true, false, some, List, [], arith,
  if◌then◌else◌, for_range, Returns, Returns-eq_some, Returns-at, length, take, replicate,
}

-- The items do not depend on the L1 cache of the context.
module _ (context : Context) (l1_cache : List ℕ) where
  calculate_dataset_item_1024-l1 :
      (index : ℕ)
      → calculate_dataset_item_1024 (record context { l1_cache = l1_cache }) index
        ≡ calculate_dataset_item_1024 context index
  unfolding calculate_dataset_item_1024
  calculate_dataset_item_1024-l1 index = refl

IsPairs-l1 :
    (context : Context) (l1_cache : List ℕ) (n : ℕ) (items : List Hash)
    → IsPairs context n items
    → IsPairs (record context { l1_cache = l1_cache }) n items
unfolding calculate_dataset_item_2048
IsPairs-l1 context l1_cache n items d = record { size = d.size; sized = d.sized; agrees = d.agrees }

Agrees-l1 :
    (context : Context) (l1_cache : List ℕ) (i : ℕ) (item : Hash)
    → Agrees context i item
    → Agrees (record context { l1_cache = l1_cache }) i item
Agrees-l1 context l1_cache i item (inl empty) = inl empty
Agrees-l1 context l1_cache i item (inr right) =
    inr (calculate_dataset_item_1024-l1 context l1_cache i ∙ right)

-- What a created context is to be.
pub record IsCreated (e : ℕ) (full : Bool) (f : FullContext) : Type 0 where
  pub epoch : f.context.epoch_number ≡ e
  pub light_items : IsLargestPrime (262144 + e * 2048) f.context.light_cache_num_items
  pub full_items : IsLargestPrime (8388608 + e * 65536) f.context.full_dataset_num_items
  pub fit : IsContext f.context
  pub filled : full ≡ true → IsDataset f.context f.full_dataset
  pub l1 : length f.context.l1_cache ≡ 4096
  pub paired : full ≡ true → IsPaired f.context f.full_dataset

-- The block of a context has room for the L1 cache.
items-le :
    (e full_items : ℕ) (full : Bool)
    → IsLargestPrime (8388608 + e * 65536) full_items
    → 128 ≤ (if full then full_items * 128 else 16 * 1024) / 128
items-le e full_items true prime = omega (
  arith,
  IsLargestPrime-le (8388608 + e * 65536) full_items 8388593 prime first_full_dataset-IsPrime
      (omega arith),
)
items-le e full_items false prime = omega arith

-- A context before its L1 cache is filled.
abbrev pub bare_context : ℕ → ℕ → ℕ → List Hash → Context
bare_context e light_items full_items light_cache = record {
  epoch_number = e;
  light_cache_num_items = light_items;
  light_cache = light_cache;
  l1_cache = [];
  full_dataset_num_items = full_items;
}

module _ (e : ℕ) (full : Bool) (lt : e < 32640) (light_items full_items : ℕ)
    (light_prime : IsLargestPrime (262144 + e * 2048) light_items)
    (full_prime : IsLargestPrime (8388608 + e * 65536) full_items) where
  built-IsCache : Returns (IsCache light_items) (
      build_light_cache
        (replicate light_items (replicate 16 0))
        light_items
        (calculate_epoch_seed e))
  unfolding build_light_cache
  built-IsCache =
      generic_build_light_cache-IsCache keccak512 keccak512-IsHash512 light_items
        (replicate light_items (replicate 16 0)) (calculate_epoch_seed e)
        (omega (arith, light_prime.0.0)) (omega (arith, light_prime.1)) (fresh-IsCache light_items)

  bare-IsContext :
      (light_cache : List Hash)
      → IsCache light_items light_cache
      → IsContext (bare_context e light_items full_items light_cache)
  bare-IsContext light_cache c = record {
    some_items = omega (arith, light_prime.0.0);
    is_cache = c;
  }

  -- The L1 cache changes none of what a context's laws speak of.
  with_l1-IsCreated :
      (light_cache items : List Hash) (l1_cache : List ℕ)
      → IsCache light_items light_cache
      → IsFilled
          (bare_context e light_items full_items light_cache)
          ((if full then full_items * 128 else 16 * 1024) / 128)
          items
      → IsPairs
          (bare_context e light_items full_items light_cache)
          ((if full then full_items * 128 else 16 * 1024) / 128)
          items
      → length l1_cache ≡ 4096
      → IsCreated e full (record {
        context = record (bare_context e light_items full_items light_cache) {
          l1_cache = l1_cache;
        };
        full_dataset = if full then items else [];
      })
  with_l1-IsCreated light_cache items l1_cache c d pairs l1 = record {
    epoch = refl;
    light_items = light_prime;
    full_items = full_prime;
    fit = record { some_items = omega (arith, light_prime.0.0); is_cache = c };
    filled = λ is_full. rw is_full (record {
      size = ground arith;
      agrees = λ i item h.
          Agrees-l1 (bare_context e light_items full_items light_cache) l1_cache i item
            (d.agrees i item h);
    });
    l1 = l1;
    paired = λ is_full. rw is_full (
        IsPairs-l1 (bare_context e light_items full_items light_cache) l1_cache full_items items
          (exact_pairs is_full pairs));
  }
    where
      exact_pairs :
          full ≡ true
          → IsPairs
              (bare_context e light_items full_items light_cache)
              ((if full then full_items * 128 else 16 * 1024) / 128)
              items
          → IsPairs (bare_context e light_items full_items light_cache) full_items items
      exact_pairs is_full d = record {
        size = ground (arith, d.size);
        sized = d.sized;
        agrees = d.agrees;
      }

-- The block of `create_epoch_context` in bytes, and the memory that it fills.
abbrev pub dataset_bytes : Bool → ℕ → ℕ
dataset_bytes full full_items = if full then full_items * 128 else 16 * 1024

pub create-some :
    (calloc : ℕ → Bool) (e : ℕ) (full : Bool) (light_items full_items : ℕ)
    (light_cache items : List Hash)
    → ((n : ℕ) → calloc n ≡ true)
    → calculate_light_cache_num_items e ≡ some light_items
    → calculate_full_dataset_num_items e ≡ some full_items
    → build_light_cache
        (replicate light_items (replicate 16 0))
        light_items
        (calculate_epoch_seed e)
      ≡ some light_cache
    → for_range 64 0
        (fill_l1 (bare_context e light_items full_items light_cache))
        (replicate (dataset_bytes full full_items / 128) (replicate 32 0))
      ≡ some items
    → create_epoch_context calloc e full
      ≡ some (
          some (record {
            context = record (bare_context e light_items full_items light_cache) {
              l1_cache = concat_items (take 128 items);
            };
            full_dataset = if full then items else [];
          }))
unfolding create_epoch_context
create-some calloc e full light_items full_items light_cache items memory light_found full_found
      built filled =
    rw (
      light_found,
      full_found,
      memory (64 + get_light_cache_size light_items + dataset_bytes full full_items),
      built,
      filled,
    )

-- For each of the first 32640 epochs, with memory at hand, creating a context returns one for that
-- epoch: its light cache and its dataset have as many items as the largest primes up to the epoch's
-- bounds, the light cache has that many 64-byte items and at least one, and the L1 cache has 4096
-- words. Of a full dataset, every item is still zero in its first word or right, and so is every pair
-- of items. Nothing is accessed outside the block.
pub create_epoch_context-IsCreated :
    (calloc : ℕ → Bool) (e : ℕ) (full : Bool)
    → e < 32640
    → ((n : ℕ) → calloc n ≡ true)
    → (f : FullContext) × (create_epoch_context calloc e full ≡ some (some f)) × IsCreated e full f
create_epoch_context-IsCreated calloc e full lt memory =
    let (light_items, light_found, light_prime) =
      calculate_light_cache_num_items-IsLargestPrime e in
    let (full_items, full_found, full_prime) = calculate_full_dataset_num_items-IsLargestPrime e in
    let (light_cache, built, c) =
      Returns-eq_some (IsCache light_items) _
        (built-IsCache e full lt light_items full_items light_prime full_prime) in
    let context = bare_context e light_items full_items light_cache in
    let (items, filled, d) =
      Returns-eq_some (IsFilled context (dataset_bytes full full_items / 128)) _ (
        fill_loop-IsFilled context (dataset_bytes full full_items / 128)
          (bare-IsContext e full lt light_items full_items light_prime full_prime light_cache c)
          (items-le e full_items full full_prime)) in
    let pairs =
      Returns-at (IsPairs context (dataset_bytes full full_items / 128))
        (for_range 64 0 (fill_l1 context)
          (replicate (dataset_bytes full full_items / 128) (replicate 32 0)))
        items
        (fill_loop-IsPairs context (dataset_bytes full full_items / 128)
          (bare-IsContext e full lt light_items full_items light_prime full_prime light_cache c)
          (items-le e full_items full full_prime))
        filled in
    let room : 128 ≤ length items =
      omega (arith, pairs.size, items-le e full_items full full_prime) in
    (
      _,
      create-some calloc e full light_items full_items light_cache items memory light_found
          full_found built filled,
      with_l1-IsCreated e full lt light_items full_items light_prime full_prime light_cache items
          (concat_items (take 128 items)) c d pairs
          (length-concat_items 128 items room pairs.sized),
    )
