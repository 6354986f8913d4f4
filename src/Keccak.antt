-- ===== src/Keccak.antt =====
-- libethash/keccak.c: the sponge over the permutation. The machine is little-endian, so `to_le64` is
-- the identity, and `load_le` reads eight bytes from the lowest up.
mod Tests
pub mod Lanes
pub mod Reference
pub mod F1600
pub mod F800
pub mod Laws
use quai_gpu_miner_archive.Keccak.F1600.{keccakf1600}
use quai_gpu_miner_archive.Prelude.{
  ℕ, zero, suc, ◌+◌, ◌-◌, ◌*◌, ◌/◌, bit_xor, List, [], ◌∷◌, ◌++◌, length, get_or, set, take, drop,
  replicate,
}

-- The number that bytes stand for, the lowest first.
pub from_bytes : List ℕ → ℕ
from_bytes [] = 0
from_bytes (b ∷ bytes) = b + 256 * from_bytes bytes

pub load_le : List ℕ → ℕ
unfolding from_bytes
load_le bytes = from_bytes (take 8 bytes)

pub xor_at : List ℕ → ℕ → ℕ → List ℕ
xor_at state i word = set state i (bit_xor (get_or state i 0) word)

-- `state[i] ^= load_le(data); data += word_size;` for `n` words from `i` on.
pub xor_words : ℕ → ℕ → List ℕ → List ℕ → List ℕ
xor_words zero i bytes state = state
xor_words (suc n) i bytes state =
    xor_words n (i + 1) (drop 8 bytes) (xor_at state i (load_le bytes))

-- `while (size >= block_size)`, which is entered `size / block_size` times.
pub absorb : ℕ → ℕ → List ℕ → List ℕ → List ℕ
absorb block_size zero bytes state = state
absorb block_size (suc n) bytes state =
    absorb block_size n (drop block_size bytes)
      (keccakf1600 (xor_words (block_size / 8) 0 bytes state))

-- The block that is not full: its whole words, then its last bytes with the byte 0x01 behind them,
-- and the top bit of the block's last word.
pub absorb_last : ℕ → List ℕ → List ℕ → List ℕ
absorb_last block_size bytes state =
    let whole = length bytes / 8 in
    let last_word = from_bytes (drop (8 * whole) bytes ++ 0x01 ∷ []) in
    let padded = xor_at (xor_words whole 0 bytes state) whole last_word in
    keccakf1600 (xor_at padded (block_size / 8 - 1) 0x8000000000000000)

-- The 64-bit words of the hash of `bits` bits.
unfoldable pub keccak : ℕ → List ℕ → List ℕ
keccak bits bytes =
    let block_size = (1600 - bits * 2) / 8 in
    let n = length bytes / block_size in
    let state = absorb block_size n bytes (replicate 25 0) in
    take (bits / 8 / 8) (absorb_last block_size (drop (n * block_size) bytes) state)
