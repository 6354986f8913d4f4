-- ===== src/Ethash/Kernel/Search.antt =====
-- The searches of libethash/ethash.cpp and the nonces of their range.
use quai_gpu_miner_archive.Ethash.Hash.{Hash, IsHash1024}
use quai_gpu_miner_archive.Ethash.Dataset.{Context}
use quai_gpu_miner_archive.Ethash.Dataset.Sizes.{IsContext, calculate_dataset_item_1024-IsHash1024}
use quai_gpu_miner_archive.Ethash.Kernel.{
  HashResult, access, hash_kernel, hash_with, light_lookup, hash, hash_full, SearchResult,
  no_solution, search_with, search_light, search,
}
use quai_gpu_miner_archive.Ethash.Kernel.Nonces.{IsFirst, IsFirst-unique, search_with-IsFirst}
use quai_gpu_miner_archive.Ethash.Kernel.Lazy.{IsDataset, hash_full-hash}
use quai_gpu_miner_archive.Prelude.{
  ℕ, ◌+◌, ◌-◌, ◌^◌, ◌≤◌, ◌<◌, ◌≡◌, refl, ap, ◌∙◌, Option, none, some, List, arith, ◌>>=◌, Returns,
  Returns->>=, for_range-Returns, u64,
}

pub with_unit :
    {A : Type 0} (m : Option (A × Unit {0}))
    → Returns (λ s. Unit) m
    → (r : A) × (m ≡ some (r, tt)) × ((m >>= λ s. some s.0) ≡ some r)
with_unit none h = absurd h
with_unit (some (r, u)) h = (r, refl, refl)

-- Every hash of a context with a light cache is computed without a read outside an array.
hash_with_total :
    (context : Context)
    → IsContext context
    → (header_hash : Hash) (nonce : ℕ)
    → Returns (λ s. Unit) (hash_with (light_lookup context) context header_hash nonce tt)
unfolding hash_with hash_kernel access light_lookup
hash_with_total context c header_hash nonce =
    Returns->>= (λ s. Unit) (λ s. Unit) _ _
      (Returns->>= (λ s. Unit) (λ s. Unit) _ _
        (for_range-Returns (λ s. Unit) _ 64
          (λ i s _ _.
            Returns->>= (λ s. Unit) (λ s. Unit) _ _
              (Returns->>= IsHash1024 (λ s. Unit) _ _
                (calculate_dataset_item_1024-IsHash1024 context c _) (λ item _. tt))
              (λ s _. tt))
          64 0 _ (omega arith) tt)
        (λ s _. tt))
      (λ s _. tt)

module _ (context : Context) (header_hash boundary : Hash) (c : IsContext context) where
  abbrev light_at : ℕ → Unit {0} → Option (HashResult × Unit {0})
  light_at nonce d = hash_with (light_lookup context) context header_hash nonce d

  light_tried :
      (nonce : ℕ) (d : Unit {0})
      → Unit {0}
      → (r : HashResult) × (d' : Unit {0}) × (light_at nonce d ≡ some (r, d'))
        × (hash context header_hash nonce ≡ some r)
        × Unit {0}
  unfolding hash
  light_tried nonce d u =
      let (r, tried, hashed) =
        with_unit (hash_with (light_lookup context) context header_hash nonce tt)
          (hash_with_total context c header_hash nonce) in
      (r, tt, tried, hashed, tt)

  -- For a context whose light cache has the stated number of items, at least one, `search_light`
  -- returns, and what it returns is the first nonce from `start_nonce` on, below the end of the
  -- range as 64 bits hold it, whose hash is within the boundary, with that hash, or no solution if
  -- there is no such nonce.
  pub search_light-IsFirst :
      (start_nonce iterations : ℕ)
      → (s : SearchResult) × (search_light context header_hash boundary start_nonce iterations
          ≡ some s)
        × IsFirst (hash context header_hash) boundary start_nonce (u64 (start_nonce + iterations)) s
  unfolding search_light
  search_light-IsFirst start_nonce iterations =
      let (s, d', found, is_first, u) =
        search_with-IsFirst (hash context header_hash) boundary light_at (λ d. Unit) light_tried
          start_nonce iterations tt tt in
      (s, rw found, is_first)

  -- Where start and number of iterations fit 64 bits and their sum does not, `search_light` finds no
  -- solution, whatever the hashes are: a range that reaches 2 ^ 64 is not searched at all. The
  -- context has a light cache of the stated size, with at least one item.
  pub search_light_wraps :
      (start_nonce iterations : ℕ)
      → start_nonce < 2 ^ 64
      → iterations < 2 ^ 64
      → 2 ^ 64 ≤ start_nonce + iterations
      → search_light context header_hash boundary start_nonce iterations ≡ some no_solution
  unfolding search_light search_with
  search_light_wraps start_nonce iterations start_lt it_lt past =
      let none_left : u64 (start_nonce + iterations) - start_nonce ≡ 0 = omega arith in rw none_left

  -- For a context whose light cache has the stated number of items, at least one, and whose dataset
  -- has from 1 to 2 ^ 32 - 1 items: from a dataset that is right as far as it is filled, `search`
  -- finds what `search_light` finds, and leaves the dataset right.
  pub search-search_light :
      0 < context.full_dataset_num_items
      → context.full_dataset_num_items < 2 ^ 32
      → (start_nonce iterations : ℕ) (full_dataset : List Hash) → IsDataset context full_dataset
      → (s : SearchResult) × (full_dataset' : List Hash) × (search context header_hash boundary
            start_nonce iterations full_dataset
          ≡ some (s, full_dataset'))
        × (search_light context header_hash boundary start_nonce iterations ≡ some s)
        × IsDataset context full_dataset'
  unfolding search
  search-search_light pos fits start_nonce iterations full_dataset d =
      let (s, stored, found, is_first, d') =
        search_with-IsFirst (hash context header_hash) boundary (hash_full context header_hash)
          (IsDataset context) (hash_full-hash context c pos fits header_hash) start_nonce iterations
          full_dataset d in
      let (t, light, is_first') = search_light-IsFirst start_nonce iterations in
      let same : t ≡ s =
        IsFirst-unique (hash context header_hash) boundary start_nonce
          (u64 (start_nonce + iterations)) t s is_first' is_first in
      (s, stored, found, light ∙ ap some same, d')
