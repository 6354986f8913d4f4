-- ===== src/Progpow/Kernel/Agreement.antt =====
-- Hashes of libethash/progpow.cpp by two lookups that give the same items.
use quai_gpu_miner_archive.Ethash.Hash.{Hash, IsHash2048}
use quai_gpu_miner_archive.Ethash.Dataset.{Context, calculate_dataset_item_2048}
use quai_gpu_miner_archive.Ethash.Dataset.Sizes.{IsContext, calculate_dataset_item_2048-IsHash2048}
use quai_gpu_miner_archive.Ethash.Kernel.{HashResult}
use quai_gpu_miner_archive.Progpow.{MixRngState, mix_rng_state, Kiss99, fnv_offset_basis}
use quai_gpu_miner_archive.Progpow.Shuffle.{mix_rng_state-IsOrder}
use quai_gpu_miner_archive.Progpow.Round.{Mix, round, round_with, item_index}
use quai_gpu_miner_archive.Progpow.Round.Safety.{IsMix, IsRng, round_with-IsMix, item_index-lt}
use quai_gpu_miner_archive.Progpow.Kernel.{
  fill_lane, fill_mix, init_mix, hash_mix, hash_with, light_lookup, hash, keccak_progpow_64,
  reduce_lanes, keccak_progpow_256,
}
use quai_gpu_miner_archive.Prelude.{
  ℕ, zero, suc, ◌+◌, ◌*◌, ◌/◌, ◌^◌, ◌≤◌, ◌<◌, ◌≡◌, refl, ap, Option, some, for_range,
  Returns-eq_some, Returns-at, for_range-refines, length, replicate, All,
}

-- A context that ProgPoW can hash with: an Ethash context with an L1 cache of 16 kB, and a dataset of
-- at least one 256-byte item.
pub record IsProgpowContext (context : Context) : Type 0 where
  pub fit : IsContext context
  pub l1 : length context.l1_cache ≡ 4096
  pub two : 2 ≤ context.full_dataset_num_items
  pub fits : context.full_dataset_num_items < 2 ^ 32

fill_lane-IsLane : (n : ℕ) (rng : Kiss99) → length (fill_lane n rng) ≡ n
unfolding fill_lane
fill_lane-IsLane zero rng = refl
fill_lane-IsLane (suc n) rng = ap suc (fill_lane-IsLane n _)

fill_mix-IsMix :
    (n l z w : ℕ)
    → (length (fill_mix n l z w) ≡ n) × All (λ lane. length lane ≡ 32) (fill_mix n l z w)
unfolding fill_mix
fill_mix-IsMix zero l z w = (refl, tt)
fill_mix-IsMix (suc n) l z w =
    let (size, lanes) = fill_mix-IsMix n (l + 1) z w in
    (ap suc size, (fill_lane-IsLane 32 _, lanes))

init_mix-IsMix : (seed : ℕ) → IsMix (init_mix seed)
unfolding init_mix
init_mix-IsMix seed = let r = fill_mix-IsMix 16 0 _ _ in record { size = r.0; lanes = r.1 }

mix_rng_state-IsRng : (seed : ℕ) → IsRng (mix_rng_state seed)
mix_rng_state-IsRng seed =
    let (dst, src) = mix_rng_state-IsOrder seed in record { dst = dst; src = src }

module _ (context : Context) (p : IsProgpowContext context) where
  -- A lookup that gives the items of the context, and keeps `R` of the state.
  abbrev pub Agrees : {D : Type 0} → (D → Type 0) → (D → ℕ → Option (Hash × D)) → Type 0
  Agrees {D} R lookup =
      (d : D) (i : ℕ)
      → R d
      → 2 * i + 1 < context.full_dataset_num_items
      → (item : Hash) × (d' : D) × (lookup d i ≡ some (item, d'))
        × (calculate_dataset_item_2048 context i ≡ some item)
        × R d'

  light_lookup-some :
      (i : ℕ) (item : Hash)
      → calculate_dataset_item_2048 context i ≡ some item
      → light_lookup context tt i ≡ some (item, tt)
  unfolding light_lookup
  light_lookup-some i item right = rw right

  pub light_lookup-Agrees : Agrees (λ d. Unit {0}) (light_lookup context)
  light_lookup-Agrees tt i u lt =
      let (item, right, sized) =
        Returns-eq_some IsHash2048 (calculate_dataset_item_2048 context i)
          (calculate_dataset_item_2048-IsHash2048 context p.fit i) in
      (item, tt, light_lookup-some i item right, right, tt)

  round-some :
      {D : Type 0} (lookup : D → ℕ → Option (Hash × D)) (state : MixRngState) (r index : ℕ)
      (item : Hash) (mix mix' : Mix) (d d' : D)
      → item_index context r mix ≡ some index
      → lookup d index ≡ some (item, d')
      → round_with context.l1_cache r item mix state ≡ some mix'
      → round lookup context state r (mix, d) ≡ some (mix', d')
  unfolding round
  round-some lookup state r index item mix mix' d d' e e' e'' = rw (e, e', e'')

  hash_mix-some :
      {D : Type 0} (lookup : D → ℕ → Option (Hash × D)) (block_number seed : ℕ) (mix : Mix)
      (d d' : D)
      → for_range 64 0
          (round lookup context (mix_rng_state (block_number / 2147483647)))
          (init_mix seed, d)
        ≡ some (mix, d')
      → hash_mix lookup context block_number seed d
        ≡ some (reduce_lanes 0 mix (replicate 8 fnv_offset_basis), d')
  unfolding hash_mix
  hash_mix-some lookup block_number seed mix d d' e = rw e

  module _ {D : Type 0} (R : D → Type 0) (lookup : D → ℕ → Option (Hash × D))
      (agree : Agrees R lookup) where
    -- One round by such a lookup and by the light cache.
    round-Agrees :
        (state : MixRngState)
        → IsRng state
        → (r : ℕ) (mix : Mix) (d : D) → IsMix mix
        → R d
        → (mix' : Mix) × (d' : D) × (round lookup context state r (mix, d) ≡ some (mix', d'))
          × (round (light_lookup context) context state r (mix, tt) ≡ some (mix', tt))
          × IsMix mix'
          × R d'
    round-Agrees state o r mix d m h =
        let (index, e, lt) =
          Returns-eq_some (λ index. 2 * index + 1 < context.full_dataset_num_items)
            (item_index context r mix) (item_index-lt context r mix p.two p.fits m) in
        let (item, d', found, right, h') = agree d index h lt in
        let sized : IsHash2048 item =
          Returns-at IsHash2048 (calculate_dataset_item_2048 context index) item
            (calculate_dataset_item_2048-IsHash2048 context p.fit index) right in
        let (mix', next, m') =
          Returns-eq_some IsMix (round_with context.l1_cache r item mix state)
            (round_with-IsMix context.l1_cache r item mix state p.l1 sized m o) in
        (
          mix',
          d',
          round-some lookup state r index item mix mix' d d' e found next,
          round-some (light_lookup context) state r index item mix mix' tt tt e
              (light_lookup-some index item right) next,
          m',
          h',
        )

    abbrev InStep : Mix × D → Mix × Unit {0} → Type 0
    InStep s t = (s.0 ≡ t.0) × IsMix s.0 × R s.1

    round-InStep :
        (state : MixRngState)
        → IsRng state
        → (r : ℕ) (s : Mix × D) (t : Mix × Unit {0}) → InStep s t
        → (s' : Mix × D) × (t' : Mix × Unit {0}) × (round lookup context state r s ≡ some s')
          × (round (light_lookup context) context state r t ≡ some t')
          × InStep s' t'
    round-InStep state o r (mix, d) (mix', tt) (same, m, h) =
        let (next, d', e, e', m', h') = round-Agrees state o r mix d m h in
        ((next, d'), (next, tt), e, rw (← same) e', (refl, m', h'))

    -- The two mix hashes.
    pub hash_mix-Agrees :
        (block_number seed : ℕ) (d : D)
        → R d
        → (mix_hash : Hash) × (d' : D) × (hash_mix lookup context block_number seed d
            ≡ some (mix_hash, d'))
          × (hash_mix (light_lookup context) context block_number seed tt ≡ some (mix_hash, tt))
          × R d'
    hash_mix-Agrees block_number seed d h =
        let state = mix_rng_state (block_number / 2147483647) in
        let ((mix, d'), (mix', tt'), e, e', (same, m, h')) =
          for_range-refines InStep (round lookup context state)
            (round (light_lookup context) context state)
            (round-InStep state (mix_rng_state-IsRng (block_number / 2147483647))) 64 0
            (init_mix seed, d) (init_mix seed, tt) (refl, init_mix-IsMix seed, h) in
        (
          reduce_lanes 0 mix (replicate 8 fnv_offset_basis),
          d',
          hash_mix-some lookup block_number seed mix d d' e,
          hash_mix-some (light_lookup context) block_number seed mix tt tt (rw same e'),
          h',
        )

    -- The two hashes.
    pub hash_with-Agrees :
        (block_number : ℕ) (header_hash : Hash) (nonce : ℕ) (d : D)
        → R d
        → (r : HashResult) × (d' : D) × (hash_with lookup context block_number header_hash nonce d
            ≡ some (r, d'))
          × (hash context block_number header_hash nonce ≡ some r)
          × R d'
    unfolding hash_with hash
    hash_with-Agrees block_number header_hash nonce d h =
        let progpow_seed = keccak_progpow_64 header_hash nonce in
        let (mix_hash, d', e, e', h') = hash_mix-Agrees block_number progpow_seed d h in
        (
          record {
            final_hash = keccak_progpow_256 header_hash progpow_seed mix_hash;
            mix_hash = mix_hash;
          },
          d',
          rw e,
          rw e',
          h',
        )
