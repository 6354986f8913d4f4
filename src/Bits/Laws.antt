-- ===== src/Bits/Laws.antt =====
-- The laws of libethash/bit_manipulation.h.
use native.Mathlib.Nat.{
  mod-lt, pow-suc, one-le-pow, div-lt_iff_lt-mul, mod-eq_of_lt, div-add-mod, zero-add,
  add-mul-mod_self_right, mul-lt-mul_of_pos_right, mod-mod, div-le_self, mul-add-mod_self_right,
  mul-add-div_right, div-eq_of_lt,
}
use quai_gpu_miner_archive.Bits.{neg_and_mask, rotl32, rotr32, mul_hi32, fnv1, fnv1a}
use quai_gpu_miner_archive.Bits.Digits.{
  bit_and_mask, bit_or_disjoint, bit_or_comm, bit_or_self, bit_or-lt, bit_xor-lt,
}
use quai_gpu_miner_archive.Prelude.{
  ℕ, zero, suc, ◌+◌, ◌-◌, ◌*◌, ◌/◌, ◌%◌, ◌^◌, ◌≤◌, ◌<◌, bit_and, ◌≡◌, sym, ap, ◌∙◌, arith, u32,
  ◌<<<◌, ◌>>>◌,
}

-- A 32-bit value.
abbrev pub IsU32 : ℕ → Type 0
IsU32 n = n < 2 ^ 32

neg_and_mask_lem : (k : ℕ) → 0 < k → k < 32 → neg_and_mask k ≡ 32 - k
unfolding neg_and_mask
neg_and_mask_lem k pos lt = omega (arith, bit_and_mask 5 (u32 (2 ^ 32 - k)))

pow-add : (c d : ℕ) → 2 ^ c * 2 ^ d ≡ 2 ^ (c + d)
pow-add zero d = rw zero-add (omega arith)
pow-add (suc c) d = omega (
  arith,
  ap (λ (t : ℕ). t * 2 ^ d) (pow-suc 2 c),
  ap (λ (t : ℕ). 2 ^ t) next,
  pow-suc 2 (c + d),
  pow-add c d,
)
  where
    next : suc c + d ≡ suc (c + d)
    next = omega arith

pow_complement : (c : ℕ) → c ≤ 32 → 2 ^ c * 2 ^ (32 - c) ≡ 2 ^ 32
pow_complement c le = pow-add c (32 - c) ∙ ap (λ (t : ℕ). 2 ^ t) whole
  where
    whole : c + (32 - c) ≡ 32
    whole = omega arith

mul-mod-mul_right : (n q p : ℕ) → 0 < q → 0 < p → n * p % (q * p) ≡ n % q * p
mul-mod-mul_right n q p q_pos p_pos = rw regroup (
    add-mul-mod_self_right (n % q * p) (n / q) (q * p)
    ∙ mod-eq_of_lt (mul-lt-mul_of_pos_right (mod-lt n q_pos) p_pos))
  where
    regroup : n * p ≡ n % q * p + n / q * (q * p)
    regroup = omega (arith, ap (λ (t : ℕ). t * p) (div-add-mod n q))

two-pow-pos : (k : ℕ) → 0 < 2 ^ k
two-pow-pos k = one-le-pow k 2 (omega arith)

-- What a left shift by `c` keeps of a word.
shl_wrap : (n c : ℕ) → c ≤ 32 → u32 (n * 2 ^ c) ≡ n % 2 ^ (32 - c) * 2 ^ c
shl_wrap n c le =
    rw (← split) (mul-mod-mul_right n (2 ^ (32 - c)) (2 ^ c) (two-pow-pos _) (two-pow-pos c))
  where
    split : 2 ^ (32 - c) * 2 ^ c ≡ 2 ^ 32
    split = omega (arith, pow_complement c le)

div-lt_complement : (n c : ℕ) → c ≤ 32 → IsU32 n → n / 2 ^ (32 - c) < 2 ^ c
div-lt_complement n c le small =
    (div-lt_iff_lt-mul (one-le-pow (32 - c) 2 (omega arith))).1 (omega (arith, pow_complement c le))

quotient-lt : (n c : ℕ) → c ≤ 32 → IsU32 n → n / 2 ^ c < 2 ^ (32 - c)
quotient-lt n c le small =
    (div-lt_iff_lt-mul (two-pow-pos c)).1 (omega (arith, pow_complement c le))

rotl32_sum :
    (n c : ℕ) → 0 < c → c < 32 → IsU32 n → rotl32 n c ≡ n % 2 ^ (32 - c) * 2 ^ c + n / 2 ^ (32 - c)
unfolding rotl32
rotl32_sum n c pos lt small =
    rw (bit_and_mask 5 c, mod-eq_of_lt lt, neg_and_mask_lem c pos lt, shl_wrap n c (omega arith))
      (bit_or_disjoint c (n % 2 ^ (32 - c)) (n / 2 ^ (32 - c))
        (div-lt_complement n c (omega arith) small))

rotr32_sum :
    (n c : ℕ) → 0 < c → c < 32 → IsU32 n → rotr32 n c ≡ n % 2 ^ c * 2 ^ (32 - c) + n / 2 ^ c
unfolding rotr32
rotr32_sum n c pos lt small =
    rw
      (
        bit_and_mask 5 c,
        mod-eq_of_lt lt,
        neg_and_mask_lem c pos lt,
        shl_wrap n (32 - c) (omega arith),
      )
      (rw back (
        bit_or_comm _ _
        ∙ bit_or_disjoint (32 - c) (n % 2 ^ c) (n / 2 ^ c) (quotient-lt n c (omega arith) small)))
  where
    back : 32 - (32 - c) ≡ c
    back = omega arith

rotl32-mod : (n c : ℕ) → rotl32 n c ≡ rotl32 n (c % 32)
unfolding rotl32
rotl32-mod n c = rw (bit_and_mask 5 c, bit_and_mask 5 (c % 32), mod-mod c 32)

rotr32-mod : (n c : ℕ) → rotr32 n c ≡ rotr32 n (c % 32)
unfolding rotr32
rotr32-mod n c = rw (bit_and_mask 5 c, bit_and_mask 5 (c % 32), mod-mod c 32)

rotl32-zero : (n : ℕ) → IsU32 n → rotl32 n 0 ≡ n
unfolding rotl32
rotl32-zero n small = ground (arith, bit_or_self n)

rotr32-zero : (n : ℕ) → IsU32 n → rotr32 n 0 ≡ n
unfolding rotr32
rotr32-zero n small = ground (arith, bit_or_self n)

-- Putting the two parts of a word back.
rejoin : (n q : ℕ) → n / q * q + n % q ≡ n
rejoin n q = omega (arith, div-add-mod n q)

pub rotl32-IsU32 : (n c : ℕ) → IsU32 n → IsU32 (rotl32 n c)
unfolding rotl32
rotl32-IsU32 n c small =
    bit_or-lt 32 (u32 (n <<< bit_and c 31)) (n >>> neg_and_mask (bit_and c 31)) (omega arith)
      (omega (arith, div-le_self n (2 ^ neg_and_mask (bit_and c 31))))

pub rotr32-IsU32 : (n c : ℕ) → IsU32 n → IsU32 (rotr32 n c)
unfolding rotr32
rotr32-IsU32 n c small =
    bit_or-lt 32 (n >>> bit_and c 31) (u32 (n <<< neg_and_mask (bit_and c 31)))
      (omega (arith, div-le_self n (2 ^ bit_and c 31))) (omega arith)

rotr32-rotl32_mid : (n c : ℕ) → 0 < c → c < 32 → IsU32 n → rotr32 (rotl32 n c) c ≡ n
rotr32-rotl32_mid n c pos lt small =
    rw
      (
        rotr32_sum (rotl32 n c) c pos lt (rotl32-IsU32 n c small),
        rotl32_sum n c pos lt small,
        mul-add-mod_self_right (n % 2 ^ (32 - c)) (2 ^ c) (n / 2 ^ (32 - c)),
        mod-eq_of_lt top,
        mul-add-div_right (two-pow-pos c) (n % 2 ^ (32 - c)) (n / 2 ^ (32 - c)),
        div-eq_of_lt top,
      )
      (omega (arith, rejoin n (2 ^ (32 - c))))
  where
    top : n / 2 ^ (32 - c) < 2 ^ c
    top = div-lt_complement n c (omega arith) small

-- On 32-bit words a rotation right undoes the rotation left by the same count, for every count.
pub rotr32-rotl32 : (n c : ℕ) → IsU32 n → rotr32 (rotl32 n c) c ≡ n
rotr32-rotl32 n c small =
    rw (rotr32-mod (rotl32 n c) c, rotl32-mod n c) (cases (c % 32) (omega arith))
  where
    cases : (k : ℕ) → k < 32 → rotr32 (rotl32 n k) k ≡ n
    cases zero lt = rw (rotl32-zero n small) (rotr32-zero n small)
    cases (suc k) lt = rotr32-rotl32_mid n (suc k) (omega arith) lt small

-- A rotation right is one left by the rest of the width.
pub rotr32-eq_rotl32 : (n c : ℕ) → 0 < c → c < 32 → IsU32 n → rotr32 n c ≡ rotl32 n (32 - c)
rotr32-eq_rotl32 n c pos lt small =
    rw (rotr32_sum n c pos lt small, rotl32_sum n (32 - c) (omega arith) (omega arith) small, back)
  where
    back : 32 - (32 - c) ≡ c
    back = omega arith

-- A rotation loses nothing.
pub rotl32-injective : (a b c : ℕ) → IsU32 a → IsU32 b → rotl32 a c ≡ rotl32 b c → a ≡ b
rotl32-injective a b c la lb e =
    sym (rotr32-rotl32 a c la) ∙ ap (λ (n : ℕ). rotr32 n c) e ∙ rotr32-rotl32 b c lb

pub rotr32-injective :
    (a b c : ℕ) → 0 < c → c < 32 → IsU32 a → IsU32 b → rotr32 a c ≡ rotr32 b c → a ≡ b
rotr32-injective a b c pos lt la lb e =
    rotl32-injective a b (32 - c) la lb
      (sym (rotr32-eq_rotl32 a c pos lt la) ∙ e ∙ rotr32-eq_rotl32 b c pos lt lb)

pub fnv1-IsU32 : (u v : ℕ) → IsU32 v → IsU32 (fnv1 u v)
unfolding fnv1
fnv1-IsU32 u v small = bit_xor-lt 32 (u32 (u * 0x01000193)) v (omega arith) small

pub fnv1a-IsU32 : (u v : ℕ) → IsU32 (fnv1a u v)
unfolding fnv1a
fnv1a-IsU32 u v = omega arith

pub mul_hi32-IsU32 : (x y : ℕ) → IsU32 (mul_hi32 x y)
unfolding mul_hi32
mul_hi32-IsU32 x y = omega arith
