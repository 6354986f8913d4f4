-- ===== src/Ethash/Hash/Order.antt =====
-- The comparisons of libethash/ethash-internal.hpp and the numbers and bytes of hashes.
use quai_gpu_miner_archive.Bits.Laws.{IsU32}
use quai_gpu_miner_archive.Ethash.Hash.{
  Hash, word64s, bytes, bswap64, words_less_or_equal, is_less_or_equal, same_bytes, is_equal,
}
use quai_gpu_miner_archive.Prelude.{
  ℕ, ◌+◌, ◌*◌, ◌%◌, ◌^◌, ◌≤◌, ◌<◌, ◌≡◌, refl, sym, ap, ◌∙◌, ◌↔◌, Bool, true, false, List, [], ◌∷◌,
  arith, ltb, if◌then◌else◌, length, All,
}

-- The number that bytes stand for, the highest first, behind the digits `high`.
unfoldable pub big_endian : ℕ → List ℕ → ℕ
big_endian high [] = high
big_endian high (b ∷ rest) = big_endian (high * 256 + b) rest

-- A hash as a 256-bit number: its bytes in memory, the highest first.
unfoldable pub number : Hash → ℕ
unfolding bytes big_endian
number h = big_endian 0 (bytes h)

big_endian-lt :
    (h k : Hash) (x y : ℕ)
    → length h ≡ length k
    → x < y
    → big_endian x (bytes h) < big_endian y (bytes k)
unfolding big_endian bytes
big_endian-lt [] [] x y e lt = lt
big_endian-lt [] (b ∷ k) x y e lt = absurd (omega arith)
big_endian-lt (a ∷ h) [] x y e lt = absurd (omega arith)
big_endian-lt (a ∷ h) (b ∷ k) x y e lt = big_endian-lt h k _ _ (omega arith) (omega arith)

-- Two words of memory are eight bytes, of which the swapped 64-bit word is the number.
big_endian-word64 :
    (high lo hi : ℕ) (rest : Hash)
    → IsU32 lo
    → IsU32 hi
    → big_endian high (bytes (lo ∷ hi ∷ rest))
      ≡ big_endian (high * 2 ^ 64 + bswap64 (lo + 2 ^ 32 * hi)) (bytes rest)
unfolding big_endian bytes bswap64
big_endian-word64 high lo hi rest lo_small hi_small =
    ap (λ (n : ℕ). big_endian n (bytes rest)) (omega arith)

-- The first words that differ decide.
first_words_iff :
    (a b high : ℕ) (rest : Bool) (h k : Hash)
    → length h ≡ length k
    → ((rest ≡ true) ↔ (big_endian (high + a) (bytes h) ≤ big_endian (high + a) (bytes k)))
    → ((if ltb b a then false else if ltb a b then true else rest) ≡ true)
      ↔ (big_endian (high + a) (bytes h) ≤ big_endian (high + b) (bytes k))
first_words_iff a b high rest h k e ih =
    ground (arith, big_endian-lt h k (high + a) (high + b), big_endian-lt k h (high + b) (high + a))

words_iff :
    (h k : Hash) (high : ℕ)
    → All IsU32 h
    → All IsU32 k
    → length h ≡ length k
    → length h % 2 ≡ 0
    → (words_less_or_equal (word64s h) (word64s k) ≡ true)
      ↔ (big_endian high (bytes h) ≤ big_endian high (bytes k))
unfolding word64s words_less_or_equal
words_iff [] [] high small_h small_k e even = (λ _. omega arith, λ _. refl)
words_iff [] (k ∷ ks) high small_h small_k e even = absurd (omega arith)
words_iff (h ∷ hs) [] high small_h small_k e even = absurd (omega arith)
words_iff (h ∷ []) (k ∷ ks) high small_h small_k e even = absurd (omega arith)
words_iff (h ∷ h' ∷ hs) (k ∷ []) high small_h small_k e even = absurd (omega arith)
words_iff (h ∷ h' ∷ hs) (k ∷ k' ∷ ks) high small_h small_k e even =
    let a = bswap64 (h + 2 ^ 32 * h') in
    rw
      (
        big_endian-word64 high h h' hs small_h.0 small_h.1.0,
        big_endian-word64 high k k' ks small_k.0 small_k.1.0,
      )
      (first_words_iff a (bswap64 (k + 2 ^ 32 * k')) (high * 2 ^ 64) _ hs ks (omega arith)
        (words_iff hs ks (high * 2 ^ 64 + a) small_h.1.1 small_k.1.1 (omega arith) (omega arith)))

-- On hashes of eight 32-bit words `is_less_or_equal` compares the hashes as big-endian numbers.
pub is_less_or_equal_iff :
    (a b : Hash)
    → length a ≡ 8
    → length b ≡ 8
    → All IsU32 a
    → All IsU32 b
    → (is_less_or_equal a b ≡ true) ↔ (number a ≤ number b)
unfolding is_less_or_equal number
is_less_or_equal_iff a b la lb small_a small_b =
    words_iff a b 0 small_a small_b (la ∙ sym lb) (omega arith)

same_bytes_iff : (xs ys : List ℕ) → (same_bytes xs ys ≡ true) ↔ (xs ≡ ys)
unfolding same_bytes
same_bytes_iff [] [] = (λ _. refl, λ _. refl)
same_bytes_iff [] (y ∷ ys) = ground arith
same_bytes_iff (x ∷ xs) [] = ground arith
same_bytes_iff (x ∷ xs) (y ∷ ys) = ground (arith, same_bytes_iff xs ys)

-- Two hashes are equal when all their bytes are.
pub is_equal_iff : (a b : Hash) → (is_equal a b ≡ true) ↔ (bytes a ≡ bytes b)
unfolding is_equal
is_equal_iff a b = same_bytes_iff (bytes a) (bytes b)
