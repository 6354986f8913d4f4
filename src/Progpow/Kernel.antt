-- ===== src/Progpow/Kernel.antt =====
-- Hashing, verification and search of libethash/progpow.cpp.
pub mod Agreement
pub mod Lazy
pub mod Verify
pub mod Search
pub mod Created
use quai_gpu_miner_archive.Bits.{fnv1a, fnv_offset_basis}
use quai_gpu_miner_archive.Keccak.F800.{keccakf800}
use quai_gpu_miner_archive.Ethash.Hash.{Hash, bswap64, word64s, is_less_or_equal, is_equal}
use quai_gpu_miner_archive.Ethash.Dataset.{Context, calculate_dataset_item_2048}
use quai_gpu_miner_archive.Ethash.Context.{store_2048}
use quai_gpu_miner_archive.Ethash.Kernel.{HashResult, SearchResult, search_with}
use quai_gpu_miner_archive.Progpow.{Kiss99, kiss99_next, MixRngState, mix_rng_state}
use quai_gpu_miner_archive.Progpow.Round.{Lane, Mix, round}
use quai_gpu_miner_archive.Prelude.{
  ℕ, zero, suc, ◌+◌, ◌*◌, ◌/◌, ◌%◌, Bool, false, Option, some, List, [], ◌∷◌, ◌++◌, ◌==◌,
  if◌then◌else◌, ◌>>=◌, for_range, get_elem?, get_or, set, take, replicate, u32, ◌>>>◌,
}

unfoldable pub keccak_progpow_256 : Hash → ℕ → Hash → Hash
keccak_progpow_256 header_hash nonce mix_hash = take 8 (
    keccakf800
      (take 8 header_hash ++ (u32 nonce ∷ u32 (nonce >>> 32) ∷ take 8 mix_hash) ++ replicate 7 0))

-- The first eight bytes of the hash, read as a big-endian number.
unfoldable pub keccak_progpow_64 : Hash → ℕ → ℕ
keccak_progpow_64 header_hash nonce =
    bswap64 (get_or (word64s (keccak_progpow_256 header_hash nonce (replicate 8 0))) 0 0)

-- `for (auto& row : mix[l]) row = rng();`, `n` registers of them.
unfoldable pub fill_lane : ℕ → Kiss99 → Lane
fill_lane zero rng = []
fill_lane (suc n) rng = let (r, rng) = kiss99_next rng in r ∷ fill_lane n rng

-- The lanes from `l` on, `n` of them.
unfoldable pub fill_mix : ℕ → ℕ → ℕ → ℕ → Mix
fill_mix zero l z w = []
fill_mix (suc n) l z w =
    let jsr = fnv1a w l in
    let jcong = fnv1a jsr l in
    fill_lane 32 (record { z = z; w = w; jsr = jsr; jcong = jcong }) ∷ fill_mix n (l + 1) z w

unfoldable pub init_mix : ℕ → Mix
init_mix seed =
    let z = fnv1a fnv_offset_basis (u32 seed) in
    let w = fnv1a z (u32 (seed >>> 32)) in fill_mix 16 0 z w

-- The words of a lane, reduced to one.
unfoldable pub lane_hash : ℕ → Lane → ℕ
lane_hash h [] = h
lane_hash h (w ∷ lane) = lane_hash (fnv1a h w) lane

-- `mix_hash.word32s[l % num_words] = fnv1a(mix_hash.word32s[l % num_words], lane_hash[l])`, from lane
-- `l` on.
unfoldable pub reduce_lanes : ℕ → Mix → Hash → Hash
reduce_lanes l [] mix_hash = mix_hash
reduce_lanes l (lane ∷ mix) mix_hash =
    reduce_lanes (l + 1) mix
      (set mix_hash (l % 8) (fnv1a (get_or mix_hash (l % 8) 0) (lane_hash fnv_offset_basis lane)))

abbrev pub period_length : ℕ
period_length = 2147483647

module _ {D : Type 0} (lookup : D → ℕ → Option (Hash × D)) where
  unfoldable pub hash_mix : Context → ℕ → ℕ → D → Option (Hash × D)
  hash_mix context block_number seed d = do
    let state = mix_rng_state (block_number / period_length)
    (mix, d) ← for_range 64 0 (round lookup context state) (init_mix seed, d)
    some (reduce_lanes 0 mix (replicate 8 fnv_offset_basis), d)

  unfoldable pub hash_with : Context → ℕ → Hash → ℕ → D → Option (HashResult × D)
  hash_with context block_number header_hash nonce d = do
    let seed = keccak_progpow_64 header_hash nonce
    (mix_hash, d) ← hash_mix context block_number seed d
    some (
      record { final_hash = keccak_progpow_256 header_hash seed mix_hash; mix_hash = mix_hash },
      d,
    )

-- A lookup that keeps no state: `calculate_dataset_item_2048` itself.
unfoldable pub light_lookup : Context → Unit {0} → ℕ → Option (Hash × Unit {0})
light_lookup context d index = calculate_dataset_item_2048 context index >>= λ item. some (item, d)

unfoldable pub hash : Context → ℕ → Hash → ℕ → Option HashResult
hash context block_number header_hash nonce =
    hash_with (light_lookup context) context block_number header_hash nonce tt >>= λ r. some r.0

-- The full dataset is seen as items of 256 bytes, each of them two of its own items.
unfoldable pub lazy_lookup : Context → List Hash → ℕ → Option (Hash × List Hash)
lazy_lookup context full_dataset index = do
  first ← get_elem? full_dataset (2 * index)
  second ← get_elem? full_dataset (2 * index + 1)
  let computed = do
    item ← calculate_dataset_item_2048 context index
    full_dataset ← store_2048 full_dataset index item
    some (item, full_dataset)
  if get_or (word64s first) 0 0 == 0 then computed else some (first ++ second, full_dataset)

unfoldable pub hash_full : Context → ℕ → Hash → ℕ → List Hash → Option (HashResult × List Hash)
hash_full context = hash_with (lazy_lookup context) context

unfoldable pub verify : Context → ℕ → Hash → Hash → ℕ → Hash → Option Bool
verify context block_number header_hash mix_hash nonce boundary =
    let seed = keccak_progpow_64 header_hash nonce in
    let final_hash = keccak_progpow_256 header_hash seed mix_hash in
    let compared = hash_mix (light_lookup context) context block_number seed tt >>= λ r.
    some (is_equal r.0 mix_hash) in
    if is_less_or_equal final_hash boundary then compared else some false

unfoldable pub search_light : Context → ℕ → Hash → Hash → ℕ → ℕ → Option SearchResult
search_light context block_number header_hash boundary start_nonce iterations =
    search_with
      (λ nonce d. hash_with (light_lookup context) context block_number header_hash nonce d)
      boundary start_nonce iterations tt
    >>= λ r. some r.0

unfoldable pub search :
    Context → ℕ → Hash → Hash → ℕ → ℕ → List Hash → Option (SearchResult × List Hash)
search context block_number header_hash boundary start_nonce iterations full_dataset =
    search_with (hash_full context block_number header_hash) boundary start_nonce iterations
      full_dataset
