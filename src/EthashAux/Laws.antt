-- ===== src/EthashAux/Laws.antt =====
-- The comparison of libdevcore/FixedHash.h and the numbers that hashes stand for.
use quai_gpu_miner_archive.Bits.Laws.{IsU32}
use quai_gpu_miner_archive.CommonData.Laws.{IsByte}
use quai_gpu_miner_archive.Ethash.Hash.{Hash, bytes, word64s}
use quai_gpu_miner_archive.Ethash.Hash.Order.{big_endian, number}
use quai_gpu_miner_archive.EthashAux.{bytes_less, same_words, h256_greater}
use quai_gpu_miner_archive.Prelude.{
  ℕ, ◌+◌, ◌*◌, ◌<◌, ◌≡◌, refl, sym, ap, ◌∙◌, ◌↔◌, ◌⊎◌, inl, inr, Bool, true, false, not, ◌||◌, List,
  [], ◌∷◌, arith, Bool-cases, length, All,
}

bytes-IsByte : (h : Hash) → All IsByte (bytes h)
unfolding bytes IsByte
bytes-IsByte [] = tt
bytes-IsByte (w ∷ h) = (omega arith, (omega arith, (omega arith, (omega arith, bytes-IsByte h))))

length-bytes : (h : Hash) → length (bytes h) ≡ 4 * length h
unfolding bytes
length-bytes [] = omega arith
length-bytes (w ∷ h) = omega (arith, length-bytes h)

-- The highest bytes that differ decide.
big_endian-lt :
    (xs ys : List ℕ) (x y : ℕ)
    → All IsByte xs
    → All IsByte ys
    → length xs ≡ length ys
    → x < y
    → big_endian x xs < big_endian y ys
unfolding big_endian IsByte
big_endian-lt [] [] x y p q e lt = lt
big_endian-lt [] (b ∷ ys) x y p q e lt = absurd (omega arith)
big_endian-lt (a ∷ xs) [] x y p q e lt = absurd (omega arith)
big_endian-lt (a ∷ xs) (b ∷ ys) x y p q e lt =
    big_endian-lt xs ys _ _ p.1 q.1 (omega arith) (omega (arith, p.0, q.0))

-- One of two lists is less, or they are the same.
bytes_less_lem :
    (xs ys : List ℕ) (high : ℕ)
    → All IsByte xs
    → All IsByte ys
    → length xs ≡ length ys
    → ((bytes_less xs ys ≡ true) × (big_endian high xs < big_endian high ys))
      ⊎ ((bytes_less xs ys ≡ false) × (big_endian high ys < big_endian high xs))
      ⊎ ((bytes_less xs ys ≡ false) × (xs ≡ ys))
unfolding bytes_less big_endian
bytes_less_lem [] [] high p q e = inr (inr (refl, refl))
bytes_less_lem [] (b ∷ ys) high p q e = absurd (omega arith)
bytes_less_lem (a ∷ xs) [] high p q e = absurd (omega arith)
bytes_less_lem (a ∷ xs) (b ∷ ys) high p q e =
    let same : length xs ≡ length ys = omega arith in
    ground (
      arith,
      big_endian-lt xs ys (high * 256 + a) (high * 256 + b) p.1 q.1 same,
      big_endian-lt ys xs (high * 256 + b) (high * 256 + a) q.1 p.1 (sym same),
      bytes_less_lem xs ys (high * 256 + a) p.1 q.1 same,
    )

pub same_words_iff : (xs ys : List ℕ) → (same_words xs ys ≡ true) ↔ (xs ≡ ys)
unfolding same_words
same_words_iff [] [] = (λ _. refl, λ _. refl)
same_words_iff [] (y ∷ ys) = ground arith
same_words_iff (x ∷ xs) [] = ground arith
same_words_iff (x ∷ xs) (y ∷ ys) = ground (arith, same_words_iff xs ys)

cons-injective : {a b : ℕ} {xs ys : List ℕ} → a ∷ xs ≡ b ∷ ys → (a ≡ b) × (xs ≡ ys)
cons-injective e = (cc e, cc e)

-- The words are those of the bytes.
bytes-injective : (h k : Hash) → All IsU32 h → All IsU32 k → bytes h ≡ bytes k → h ≡ k
unfolding bytes
bytes-injective [] [] p q e = refl
bytes-injective [] (w ∷ k) p q e = absurd (cc e)
bytes-injective (v ∷ h) [] p q e = absurd (cc e)
bytes-injective (v ∷ h) (w ∷ k) p q e =
    let (e0, r0) = cons-injective e in
    let (e1, r1) = cons-injective r0 in
    let (e2, r2) = cons-injective r1 in
    let (e3, r3) = cons-injective r2 in
    let same : v ≡ w = omega (arith, p.0, q.0) in
    rw same (ap (λ t. w ∷ t) (bytes-injective h k p.1 q.1 r3))

word64s-injective :
    (h k : Hash) → All IsU32 h → All IsU32 k → length h ≡ length k → word64s h ≡ word64s k → h ≡ k
unfolding word64s
word64s-injective [] [] p q l e = refl
word64s-injective [] (w ∷ k) p q l e = absurd (omega arith)
word64s-injective (v ∷ h) [] p q l e = absurd (omega arith)
word64s-injective (v ∷ []) (w ∷ []) p q l e = e
word64s-injective (v ∷ []) (w ∷ w' ∷ k) p q l e = absurd (omega arith)
word64s-injective (v ∷ v' ∷ h) (w ∷ []) p q l e = absurd (omega arith)
word64s-injective (v ∷ v' ∷ h) (w ∷ w' ∷ k) p q l e =
    let (e0, r) = cons-injective e in
    let low : v ≡ w = omega (arith, p.0, q.0) in
    let high : v' ≡ w' = omega arith in
    rw (low, high) (ap (λ t. w ∷ w' ∷ t) (word64s-injective h k p.1.1 q.1.1 (omega arith) r))

-- The cases of the comparison, with whether the words are the same and whether the bytes are less.
greater_lem :
    (same less : Bool) (m n : ℕ)
    → ((less ≡ true) × (m < n))
      ⊎ ((same ≡ false) × (less ≡ false) × (n < m))
      ⊎ ((same ≡ true) × (m ≡ n))
    → (not (same || less) ≡ true) ↔ (n < m)
greater_lem same less m n h = ground arith

-- Hashes of eight 32-bit words are compared as big-endian numbers.
pub h256_greater_iff :
    (a b : Hash)
    → length a ≡ length b
    → All IsU32 a
    → All IsU32 b
    → (h256_greater a b ≡ true) ↔ (number b < number a)
unfolding h256_greater number bytes_less same_words
h256_greater_iff a b l p q =
    let same = same_words (word64s a) (word64s b) in
    let injective = word64s-injective a b p q l in
    greater_lem same (bytes_less (bytes a) (bytes b)) (number a) (number b)
      (elim (bytes_less_lem (bytes a) (bytes b) 0 (bytes-IsByte a) (bytes-IsByte b)
        (length-bytes a ∙ ap (λ n. 4 * n) l ∙ sym (length-bytes b))) [
          | inl (less, lt) ↦ inl (less, lt)
          | inr (inl (less, lt)) ↦ elim (Bool-cases same) [
            | inl e ↦
                (let hashes = injective ((same_words_iff (word64s a) (word64s b)).0 e) in
                  let equal : number a ≡ number b = ap number hashes in absurd (omega arith))
            | inr e ↦ inr (inl (e, less, lt))
          ]
          | inr (inr (less, e)) ↦
              (let hashes = bytes-injective a b p q e in
                inr (
                  inr (
                    (same_words_iff (word64s a) (word64s b)).1 (ap word64s hashes),
                    ap number hashes,
                  )))
        ])
