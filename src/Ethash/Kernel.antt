-- ===== src/Ethash/Kernel.antt =====
-- Hashing, verification and search of libethash/ethash.cpp. The lookup of a dataset item is a
-- parameter of the kernel, as in the source; it may change the dataset, which is passed along as the
-- state `D`. `none` is a read outside an array.
pub mod Nonces
pub mod Lazy
pub mod Verify
pub mod Search
use quai_gpu_miner_archive.Bits.{fnv1 as fnv1_word}
use quai_gpu_miner_archive.Ethash.Hash.{
  Hash, bytes, word64s, from_word64s, fnv1, keccak256, keccak512, is_less_or_equal, is_equal,
}
use quai_gpu_miner_archive.Ethash.Dataset.{Context, calculate_dataset_item_1024}
use quai_gpu_miner_archive.Prelude.{
  ℕ, zero, suc, ◌+◌, ◌-◌, ◌%◌, bit_xor, Bool, true, false, Option, some, List, [], ◌∷◌, ◌++◌, ◌==◌,
  if◌then◌else◌, ◌>>=◌, for_range, get_elem?, get_or, set, replicate, u32, u64,
}

abbrev pub num_dataset_accesses : ℕ
num_dataset_accesses = 64

-- `result`.
pub record HashResult : Type 0 where
  pub final_hash : Hash
  pub mix_hash : Hash

pub hash_seed : Hash → ℕ → Hash
hash_seed header_hash nonce = keccak512 (bytes header_hash ++ bytes (from_word64s (nonce ∷ [])))

pub hash_final : Hash → Hash → Hash
hash_final seed mix_hash = keccak256 (bytes seed ++ bytes mix_hash)

-- Each four words of the mix give one of the hash.
pub compress : Hash → Hash
compress (a ∷ b ∷ c ∷ d ∷ rest) =
    let h1 = fnv1_word a b in
    let h2 = fnv1_word h1 c in let h3 = fnv1_word h2 d in h3 ∷ compress rest
compress _ = []

-- The index of access `i`.
pub access_index : Context → ℕ → ℕ → Hash → ℕ
access_index context seed_init i mix =
    fnv1_word (bit_xor i seed_init) (get_or mix (i % 32) 0) % u32 context.full_dataset_num_items

module _ {D : Type 0} (lookup : D → ℕ → Option (Hash × D)) where
  pub access : Context → ℕ → ℕ → Hash × D → Option (Hash × D)
  access context seed_init i (mix, d) = do
    (newdata, d) ← lookup d (access_index context seed_init i mix)
    some (fnv1 mix newdata, d)

  pub hash_kernel : Context → Hash → D → Option (Hash × D)
  hash_kernel context seed d = do
    let seed_init = get_or seed 0 0
    (mix, d) ← for_range num_dataset_accesses 0 (access context seed_init) (seed ++ seed, d)
    some (compress mix, d)

  pub hash_with : Context → Hash → ℕ → D → Option (HashResult × D)
  hash_with context header_hash nonce d = do
    let seed = hash_seed header_hash nonce
    (mix_hash, d) ← hash_kernel context seed d
    some (record { final_hash = hash_final seed mix_hash; mix_hash = mix_hash }, d)

-- A lookup that keeps no state: `calculate_dataset_item_1024` itself.
pub light_lookup : Context → Unit {0} → ℕ → Option (Hash × Unit {0})
light_lookup context d index = calculate_dataset_item_1024 context index >>= λ item. some (item, d)

unfoldable pub hash : Context → Hash → ℕ → Option HashResult
hash context header_hash nonce =
    hash_with (light_lookup context) context header_hash nonce tt >>= λ r. some r.0

-- The full dataset is filled as it is read: an item whose first 64-bit word is zero is computed and
-- stored.
pub lazy_lookup : Context → List Hash → ℕ → Option (Hash × List Hash)
lazy_lookup context full_dataset index = do
  item ← get_elem? full_dataset index
  let computed =
      calculate_dataset_item_1024 context index >>= λ item. some (item, set full_dataset index item)
  if get_or (word64s item) 0 0 == 0 then computed else some (item, full_dataset)

unfoldable pub hash_full : Context → Hash → ℕ → List Hash → Option (HashResult × List Hash)
hash_full context = hash_with (lazy_lookup context) context

unfoldable pub verify_final_hash : Hash → Hash → ℕ → Hash → Bool
verify_final_hash header_hash mix_hash nonce boundary =
    is_less_or_equal (hash_final (hash_seed header_hash nonce) mix_hash) boundary

unfoldable pub verify : Context → Hash → Hash → ℕ → Hash → Option Bool
verify context header_hash mix_hash nonce boundary =
    let seed = hash_seed header_hash nonce in
    let compared =
      hash_kernel (light_lookup context) context seed tt >>= λ r. some (is_equal r.0 mix_hash) in
    if is_less_or_equal (hash_final seed mix_hash) boundary then compared else some false

-- `search_result`; without a solution its other members keep their initial zeros.
pub record SearchResult : Type 0 where
  pub solution_found : Bool
  pub nonce : ℕ
  pub final_hash : Hash
  pub mix_hash : Hash

abbrev pub no_solution : SearchResult
no_solution = record {
  solution_found = false;
  nonce = 0;
  final_hash = replicate 8 0;
  mix_hash = replicate 8 0;
}

abbrev pub solution : HashResult → ℕ → SearchResult
solution r nonce = record {
  solution_found = true;
  nonce = nonce;
  final_hash = r.final_hash;
  mix_hash = r.mix_hash;
}

module _ {D : Type 0} (hash_at : ℕ → D → Option (HashResult × D)) (boundary : Hash) where
  -- The loop with `n` nonces left.
  pub search_from : ℕ → ℕ → D → Option (SearchResult × D)
  search_from zero nonce d = some (no_solution, d)
  search_from (suc n) nonce d = hash_at nonce d >>= λ (r, d').
      elim (is_less_or_equal r.final_hash boundary) [
        | true ↦ some (solution r nonce, d')
        | false ↦ search_from n (nonce + 1) d'
      ]

  -- `end_nonce` wraps at 64 bits, and the loop runs while the nonce is below it.
  pub search_with : ℕ → ℕ → D → Option (SearchResult × D)
  unfolding search_from
  search_with start_nonce iterations d =
      let end_nonce = u64 (start_nonce + iterations) in
      search_from (end_nonce - start_nonce) start_nonce d

unfoldable pub search_light : Context → Hash → Hash → ℕ → ℕ → Option SearchResult
search_light context header_hash boundary start_nonce iterations =
    search_with (λ nonce d. hash_with (light_lookup context) context header_hash nonce d) boundary
      start_nonce iterations tt
    >>= λ r. some r.0

unfoldable pub search :
    Context → Hash → Hash → ℕ → ℕ → List Hash → Option (SearchResult × List Hash)
search context header_hash boundary start_nonce iterations full_dataset =
    search_with (hash_full context header_hash) boundary start_nonce iterations full_dataset
