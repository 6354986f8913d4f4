-- ===== src/Progpow.antt =====
-- The random numbers of ProgPoW: the generator of libethash/kiss99.hpp, and `mix_rng_state` of
-- libethash/progpow.cpp with its two shuffled sequences of register numbers.
mod Tests
pub mod Shuffle
pub mod Merge
pub mod Round
pub mod Kernel
use quai_gpu_miner_archive.Bits.{fnv1a, fnv_offset_basis}
use quai_gpu_miner_archive.Prelude.{
  ℕ, zero, suc, ◌+◌, ◌-◌, ◌*◌, ◌%◌, bit_and, bit_xor, List, [], ◌∷◌, get_or, set, u32, ◌<<<◌, ◌>>>◌,
}

-- `kiss99`.
pub record Kiss99 : Type 0 where
  pub z : ℕ
  pub w : ℕ
  pub jsr : ℕ
  pub jcong : ℕ

-- `operator()`: the number and the generator after it.
unfoldable pub kiss99_next : Kiss99 → ℕ × Kiss99
kiss99_next k =
    let z = u32 (36969 * bit_and k.z 0xffff + (k.z >>> 16)) in
    let w = u32 (18000 * bit_and k.w 0xffff + (k.w >>> 16)) in
    let jcong = u32 (69069 * k.jcong + 1234567) in
    let jsr1 = bit_xor k.jsr (u32 (k.jsr <<< 17)) in
    let jsr2 = bit_xor jsr1 (jsr1 >>> 13) in
    let jsr = bit_xor jsr2 (u32 (jsr2 <<< 5)) in
    (
      u32 (bit_xor (u32 (u32 (z <<< 16) + w)) jcong + jsr),
      record { z = z; w = w; jsr = jsr; jcong = jcong },
    )

abbrev pub num_regs : ℕ
num_regs = 32

-- The numbers from `i` on, `n` of them.
abbrev pub indices : ℕ → ℕ → List ℕ
indices zero i = []
indices (suc n) i = i ∷ indices n (i + 1)

-- `std::swap(xs[i], xs[j])`.
unfoldable pub swap : ℕ → ℕ → List ℕ → List ℕ
swap i j xs = set (set xs i (get_or xs j 0)) j (get_or xs i 0)

pub record MixRngState : Type 0 where
  pub rng : Kiss99
  pub dst_counter : ℕ
  pub dst_seq : List ℕ
  pub src_counter : ℕ
  pub src_seq : List ℕ

-- One turn of the shuffle's loop.
unfoldable pub shuffle_step : ℕ → MixRngState → MixRngState
shuffle_step i s =
    let (r, rng1) = kiss99_next s.rng in
    let (q, rng2) = kiss99_next rng1 in
    record s {
      rng = rng2;
      dst_seq = swap (i - 1) (r % i) s.dst_seq;
      src_seq = swap (i - 1) (q % i) s.src_seq;
    }

-- The shuffle's loop, from `i` down to 2.
unfoldable pub shuffle : ℕ → MixRngState → MixRngState
shuffle zero s = s
shuffle (suc zero) s = s
shuffle (suc (suc i)) s = shuffle (suc i) (shuffle_step (suc (suc i)) s)

unfoldable pub mix_rng_state : ℕ → MixRngState
mix_rng_state seed =
    let seed_lo = u32 seed in
    let seed_hi = u32 (seed >>> 32) in
    let z = fnv1a fnv_offset_basis seed_lo in
    let w = fnv1a z seed_hi in
    let jsr = fnv1a w seed_lo in
    let jcong = fnv1a jsr seed_hi in
    shuffle num_regs (record {
      rng = record { z = z; w = w; jsr = jsr; jcong = jcong };
      dst_counter = 0;
      dst_seq = indices num_regs 0;
      src_counter = 0;
      src_seq = indices num_regs 0;
    })
