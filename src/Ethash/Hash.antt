-- ===== src/Ethash/Hash.antt =====
-- The hash types of libethash/ethash/hash_types.h, the accesses of libethash/endianness.hpp on a
-- little-endian machine, the comparisons of libethash/ethash-internal.hpp and the keccak functions
-- on hashes. A hash is the list of its 32-bit words, `word32s`; the other members of the union are
-- read through `word64s` and `bytes`.
pub mod Order
pub mod Sizes
use quai_gpu_miner_archive.Keccak.{keccak}
use quai_gpu_miner_archive.Bits.{fnv1 as fnv1_word}
use quai_gpu_miner_archive.Prelude.{
  ℕ, ◌+◌, ◌*◌, ◌/◌, ◌%◌, ◌^◌, bit_xor, ◌≡◌, Bool, true, false, ◌&&◌, List, [], ◌∷◌, ltb, ◌==◌,
  if◌then◌else◌, length, zip_with, u32, ◌>>>◌,
}

abbrev pub Hash : Type 0
Hash = List ℕ

-- The lengths of the four types in 32-bit words.
abbrev pub IsHash256 : Hash → Type 0
IsHash256 h = length h ≡ 8

abbrev pub IsHash512 : Hash → Type 0
IsHash512 h = length h ≡ 16

abbrev pub IsHash1024 : Hash → Type 0
IsHash1024 h = length h ≡ 32

abbrev pub IsHash2048 : Hash → Type 0
IsHash2048 h = length h ≡ 64

unfoldable pub word64s : Hash → List ℕ
word64s [] = []
word64s (lo ∷ []) = lo ∷ []
word64s (lo ∷ hi ∷ words) = (lo + 2 ^ 32 * hi) ∷ word64s words

-- The same memory, given by its 64-bit words.
unfoldable pub from_word64s : List ℕ → Hash
from_word64s [] = []
from_word64s (w ∷ words) = u32 w ∷ (w >>> 32) ∷ from_word64s words

unfoldable pub bytes : Hash → List ℕ
bytes [] = []
bytes (w ∷ words) = w % 256 ∷ w / 2 ^ 8 % 256 ∷ w / 2 ^ 16 % 256 ∷ w / 2 ^ 24 % 256 ∷ bytes words

unfoldable pub fnv1 : Hash → Hash → Hash
fnv1 u v = zip_with fnv1_word u v

unfoldable pub bitwise_xor : Hash → Hash → Hash
unfolding word64s from_word64s
bitwise_xor x y = from_word64s (zip_with bit_xor (word64s x) (word64s y))

unfoldable pub keccak256 : List ℕ → Hash
unfolding from_word64s
keccak256 input = from_word64s (keccak 256 input)

unfoldable pub keccak512 : List ℕ → Hash
unfolding from_word64s
keccak512 input = from_word64s (keccak 512 input)

-- `bswap64`.
unfoldable pub bswap64 : ℕ → ℕ
bswap64 x =
    x % 256 * 2 ^ 56
    + x / 2 ^ 8 % 256 * 2 ^ 48
    + x / 2 ^ 16 % 256 * 2 ^ 40
    + x / 2 ^ 24 % 256 * 2 ^ 32
    + x / 2 ^ 32 % 256 * 2 ^ 24
    + x / 2 ^ 40 % 256 * 2 ^ 16
    + x / 2 ^ 48 % 256 * 2 ^ 8
    + x / 2 ^ 56 % 256

-- The loop of `is_less_or_equal` over the words that are left.
unfoldable pub words_less_or_equal : List ℕ → List ℕ → Bool
words_less_or_equal [] bs = true
words_less_or_equal (a ∷ as_) [] = true
words_less_or_equal (a ∷ as_) (b ∷ bs) =
    if ltb (bswap64 b) (bswap64 a)
    then false
    else if ltb (bswap64 a) (bswap64 b)
    then true
    else words_less_or_equal as_ bs

unfoldable pub is_less_or_equal : Hash → Hash → Bool
unfolding words_less_or_equal word64s bswap64
is_less_or_equal a b = words_less_or_equal (word64s a) (word64s b)

-- `memcmp(...) == 0`.
unfoldable pub same_bytes : List ℕ → List ℕ → Bool
same_bytes [] [] = true
same_bytes [] (b ∷ bs) = false
same_bytes (a ∷ as_) [] = false
same_bytes (a ∷ as_) (b ∷ bs) = a == b && same_bytes as_ bs

unfoldable pub is_equal : Hash → Hash → Bool
unfolding same_bytes bytes
is_equal a b = same_bytes (bytes a) (bytes b)
