-- ===== src/Progpow/Shuffle.antt =====
-- The shuffled sequences of `mix_rng_state` of libethash/progpow.cpp.
use native.Mathlib.Decide.{ℕ_discrete}
use native.Mathlib.Nat.{mod-lt}
use quai_gpu_miner_archive.Progpow.{
  indices, swap, MixRngState, shuffle_step, shuffle, mix_rng_state,
}
use quai_gpu_miner_archive.Prelude.{
  ℕ, zero, suc, ◌+◌, ◌-◌, ◌≤◌, ◌<◌, ◌≡◌, refl, sym, ap, ◌∙◌, some, List, [], ◌∷◌, arith, length,
  get_elem?, get_or, set, length-set, get_elem?-set_self, get_elem?-set_ne, All, All-set,
}

-- A value stands at some place of the list.
abbrev pub Occurs : ℕ → List ℕ → Type 0
Occurs v xs = (i : ℕ) × (get_elem? xs i ≡ some v)

-- 32 numbers below 32, among them each of the registers: an order of the registers.
pub record IsOrder (xs : List ℕ) : Type 0 where
  pub size : length xs ≡ 32
  pub all : (v : ℕ) → v < 32 → Occurs v xs
  pub below : All (λ v. v < 32) xs

get_or-some : (xs : List ℕ) (i v : ℕ) → get_elem? xs i ≡ some v → get_or xs i 0 ≡ v
get_or-some [] i v e = absurd (cc e)
get_or-some (x ∷ xs) zero v e = cc e
get_or-some (x ∷ xs) (suc i) v e = get_or-some xs i v e

swap-Occurs :
    (i j : ℕ) (xs : List ℕ) (v : ℕ)
    → i < length xs
    → j < length xs
    → Occurs v xs
    → Occurs v (swap i j xs)
unfolding swap
swap-Occurs i j xs v i_lt j_lt (k, e) = elim (ℕ_discrete j k) [
  | yes at_j ↦ elim (ℕ_discrete j i) [
    | yes same ↦ (j, second ∙ ap some (get_or-some xs i v (rw (sym same ∙ at_j) e)))
    | no ne ↦ (
      i,
      get_elem?-set_ne first_set j i (get_or xs i 0) ne
          ∙ get_elem?-set_self xs i (get_or xs j 0) i_lt
          ∙ ap some (get_or-some xs j v (rw at_j e)),
    )
  ]
  | no not_j ↦ elim (ℕ_discrete i k) [
    | yes at_i ↦ (j, second ∙ ap some (get_or-some xs i v (rw at_i e)))
    | no not_i ↦ (
      k,
      get_elem?-set_ne first_set j k (get_or xs i 0) not_j
          ∙ get_elem?-set_ne xs i k (get_or xs j 0) not_i
          ∙ e,
    )
  ]
]
  where
    first_set : List ℕ
    first_set = set xs i (get_or xs j 0)

    second : get_elem? (set first_set j (get_or xs i 0)) j ≡ some (get_or xs i 0)
    second =
        get_elem?-set_self first_set j (get_or xs i 0) (rw (length-set xs i (get_or xs j 0)) j_lt)

All-get_or : (xs : List ℕ) (i : ℕ) → i < length xs → All (λ v. v < 32) xs → get_or xs i 0 < 32
All-get_or [] i lt h = elim lt [ ]
All-get_or (x ∷ xs) zero lt h = h.0
All-get_or (x ∷ xs) (suc i) lt h = All-get_or xs i (omega arith) h.1

swap-IsOrder : (i j : ℕ) (xs : List ℕ) → i < 32 → j < 32 → IsOrder xs → IsOrder (swap i j xs)
unfolding swap
swap-IsOrder i j xs i_lt j_lt o = record {
  size =
      length-set (set xs i (get_or xs j 0)) j (get_or xs i 0)
      ∙ length-set xs i (get_or xs j 0)
      ∙ o.size;
  all = λ v lt. swap-Occurs i j xs v (rw (o.size) i_lt) (rw (o.size) j_lt) (o.all v lt);
  below =
      All-set (λ v. v < 32) (set xs i (get_or xs j 0)) j (get_or xs i 0)
        (All-set (λ v. v < 32) xs i (get_or xs j 0) o.below
          (All-get_or xs j (rw (o.size) j_lt) o.below))
        (All-get_or xs i (rw (o.size) i_lt) o.below);
}

indices-Occurs : (n i v : ℕ) → i ≤ v → v < i + n → get_elem? (indices n i) (v - i) ≡ some v
indices-Occurs zero i v le lt = absurd (omega arith)
indices-Occurs (suc n) i v le lt = elim (ℕ_discrete i v) [
  | yes e ↦ let none_before : v - i ≡ 0 = omega arith in rw none_before (ap some e)
  | no ne ↦
      let later : v - i ≡ suc (v - (i + 1)) = omega arith in
      rw later (indices-Occurs n (i + 1) v (omega arith) (omega arith))
]

indices-below : (n i : ℕ) → i + n ≤ 32 → All (λ v. v < 32) (indices n i)
indices-below zero i le = tt
indices-below (suc n) i le = (omega arith, indices-below n (i + 1) (omega arith))

indices-IsOrder : IsOrder (indices 32 0)
indices-IsOrder = record {
  size = refl;
  all = λ v lt. (v - 0, indices-Occurs 32 0 v (omega arith) (omega arith));
  below = indices-below 32 0 (omega arith);
}

shuffle_step-IsOrder :
    (i : ℕ) (s : MixRngState)
    → 0 < i
    → i ≤ 32
    → IsOrder s.dst_seq
    → IsOrder s.src_seq
    → IsOrder (shuffle_step i s).dst_seq × IsOrder (shuffle_step i s).src_seq
unfolding shuffle_step
shuffle_step-IsOrder i s pos le d r = (
  swap-IsOrder (i - 1) _ s.dst_seq (omega arith) (omega (arith, mod-lt _ pos)) d,
  swap-IsOrder (i - 1) _ s.src_seq (omega arith) (omega (arith, mod-lt _ pos)) r,
)

shuffle-IsOrder :
    (i : ℕ) (s : MixRngState)
    → i ≤ 32
    → IsOrder s.dst_seq
    → IsOrder s.src_seq
    → IsOrder (shuffle i s).dst_seq × IsOrder (shuffle i s).src_seq
unfolding shuffle
shuffle-IsOrder zero s le d r = (d, r)
shuffle-IsOrder (suc zero) s le d r = (d, r)
shuffle-IsOrder (suc (suc i)) s le d r =
    let (d', r') = shuffle_step-IsOrder (suc (suc i)) s (omega arith) le d r in
    shuffle-IsOrder (suc i) (shuffle_step (suc (suc i)) s) (omega arith) d' r'

-- Whatever the seed, both shuffled sequences have 32 entries, and each of the 32 registers stands
-- among them.
pub mix_rng_state-IsOrder :
    (seed : ℕ) → IsOrder (mix_rng_state seed).dst_seq × IsOrder (mix_rng_state seed).src_seq
unfolding mix_rng_state
mix_rng_state-IsOrder seed = shuffle-IsOrder 32 _ (omega arith) indices-IsOrder indices-IsOrder
