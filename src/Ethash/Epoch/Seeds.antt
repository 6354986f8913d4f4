-- ===== src/Ethash/Epoch/Seeds.antt =====
-- Seeds of epochs and `find_epoch_number` of libethash/ethash.cpp.
use native.Mathlib.Numerals.{add-one}
use native.Mathlib.Decide.{ℕ_discrete}
use quai_gpu_miner_archive.Ethash.Hash.{Hash, bytes, keccak256}
use quai_gpu_miner_archive.Ethash.Epoch.{
  hash_times, calculate_epoch_seed, zero_hash, SeedCache, first_word, find_from, find_epoch_number,
  num_tries,
}
use quai_gpu_miner_archive.Prelude.{
  ℕ, zero, suc, ◌+◌, ◌≤◌, ◌<◌, ◌≡◌, refl, sym, ap, ◌∙◌, ◌≢◌, Option, none, some, arith, ==_iff,
  ne→==,
}

hash_times_next :
    (n : ℕ) (seed : Hash) → hash_times (suc n) seed ≡ keccak256 (bytes (hash_times n seed))
unfolding hash_times
hash_times_next zero seed = refl
hash_times_next (suc n) seed = hash_times_next n (keccak256 (bytes seed))

epoch_seed_next :
    (n : ℕ) → calculate_epoch_seed (n + 1) ≡ keccak256 (bytes (calculate_epoch_seed n))
unfolding calculate_epoch_seed
epoch_seed_next n = rw (add-one n) (hash_times_next n zero_hash)

-- The cached seed is that of the cached epoch.
abbrev pub IsCoherent : SeedCache → Type 0
IsCoherent cache = cache.cached_seed ≡ calculate_epoch_seed cache.cached_epoch_number

-- A number that is found is that of an epoch whose seed begins like the one that was looked for.
abbrev pub Found : ℕ → Option ℕ × SeedCache → Type 0
Found seed_part (none, cache) = IsCoherent cache
Found seed_part (some e, cache) =
    (first_word (calculate_epoch_seed e) ≡ seed_part) × IsCoherent cache

module _ (n i seed_part : ℕ) (s : Hash) (cache : SeedCache) where
  find_from-hit :
      first_word s ≡ seed_part
      → find_from (suc n) i seed_part s cache
        ≡ (some i, record { cached_epoch_number = i; cached_seed = s })
  unfolding find_from
  find_from-hit e = ground arith

  find_from-next :
      first_word s ≢ seed_part
      → find_from (suc n) i seed_part s cache
        ≡ find_from n (i + 1) seed_part (keccak256 (bytes s)) cache
  unfolding find_from
  find_from-next ne = ground arith

-- The search from epoch `i` on answers rightly, whatever it looks for.
find_from-Found :
    (n i seed_part : ℕ) (s : Hash) (cache : SeedCache)
    → s ≡ calculate_epoch_seed i
    → IsCoherent cache
    → Found seed_part (find_from n i seed_part s cache)
find_from-Found zero i seed_part s cache e c = unfold find_from in c
find_from-Found (suc n) i seed_part s cache e c = elim (ℕ_discrete (first_word s) seed_part) [
  | yes same ↦ rw (find_from-hit n i seed_part s cache same) (ap first_word (sym e) ∙ same, e)
  | no other ↦ rw (find_from-next n i seed_part s cache other) (
      find_from-Found n (i + 1) seed_part (keccak256 (bytes s)) cache
        (ap (λ (h : Hash). keccak256 (bytes h)) e ∙ sym (epoch_seed_next i)) c)
]

-- The same, for the two tries from the thread's cache and the search behind them.
module _ (seed : Hash) (cache : SeedCache) where
  abbrev part : ℕ
  part = first_word seed

  find-cached :
      first_word cache.cached_seed ≡ part
      → find_epoch_number seed cache ≡ (some cache.cached_epoch_number, cache)
  unfolding find_epoch_number
  find-cached same = rw ((==_iff _ _).1 same)

  find-next :
      ¬ (first_word cache.cached_seed ≡ part)
      → first_word (keccak256 (bytes cache.cached_seed)) ≡ part
      → find_epoch_number seed cache ≡ (
        some (cache.cached_epoch_number + 1),
        record {
          cached_epoch_number = cache.cached_epoch_number + 1;
          cached_seed = keccak256 (bytes cache.cached_seed);
        },
      )
  unfolding find_epoch_number
  find-next other same = rw (ne→== _ _ other, (==_iff _ _).1 same)

  find-search :
      ¬ (first_word cache.cached_seed ≡ part)
      → ¬ (first_word (keccak256 (bytes cache.cached_seed)) ≡ part)
      → find_epoch_number seed cache ≡ find_from num_tries 0 part zero_hash cache
  unfolding find_epoch_number
  find-search other other' = rw (ne→== _ _ other, ne→== _ _ other')

next-IsCoherent :
    (cache : SeedCache)
    → IsCoherent cache
    → keccak256 (bytes cache.cached_seed) ≡ calculate_epoch_seed (cache.cached_epoch_number + 1)
next-IsCoherent cache c =
    ap (λ (h : Hash). keccak256 (bytes h)) c ∙ sym (epoch_seed_next cache.cached_epoch_number)

pub epoch_seed_zero : zero_hash ≡ calculate_epoch_seed 0
unfolding calculate_epoch_seed hash_times
epoch_seed_zero = refl

-- Split on which of the three searches answers.
find_cases :
    (P : Option ℕ × SeedCache → Type 0) (seed : Hash) (cache : SeedCache)
    → IsCoherent cache
    → ((e : ℕ) (cache' : SeedCache)
        → first_word (calculate_epoch_seed e) ≡ first_word seed
        → IsCoherent cache'
        → P (some e, cache'))
    → P (find_from num_tries 0 (first_word seed) zero_hash cache)
    → P (find_epoch_number seed cache)
find_cases P seed cache c near far =
    elim (ℕ_discrete (first_word cache.cached_seed) (first_word seed)) [
      | yes same ↦ rw (find-cached seed cache same) (near _ _ (ap first_word (sym c) ∙ same) c)
      | no other ↦
          elim (ℕ_discrete (first_word (keccak256 (bytes cache.cached_seed))) (first_word seed)) [
            | yes same ↦ rw (find-next seed cache other same) (
                near _ _ (ap first_word (sym (next-IsCoherent cache c)) ∙ same)
                  (next-IsCoherent cache c))
            | no other' ↦ rw (find-search seed cache other other') far
          ]
    ]

-- If the thread's cache holds an epoch with its seed, then whatever the seed, an answer of
-- `find_epoch_number` is the number of an epoch whose seed has the same first word, and the cache
-- holds an epoch with its seed again.
pub find_epoch_number-Found :
    (seed : Hash) (cache : SeedCache)
    → IsCoherent cache
    → Found (first_word seed) (find_epoch_number seed cache)
find_epoch_number-Found seed cache c =
    find_cases (Found (first_word seed)) seed cache c (λ e cache' same c'. (same, c'))
      (find_from-Found num_tries 0 (first_word seed) zero_hash cache epoch_seed_zero c)

-- An answer at all.
abbrev pub Answers : Option ℕ × SeedCache → Type 0
Answers r = (e : ℕ) × (r.0 ≡ some e)

find_from-Answers :
    (tries i n : ℕ) (s : Hash) (cache : SeedCache)
    → s ≡ calculate_epoch_seed i
    → i ≤ n
    → n < i + tries
    → Answers (find_from tries i (first_word (calculate_epoch_seed n)) s cache)
find_from-Answers zero i n s cache e le lt = absurd (omega arith)
find_from-Answers (suc tries) i n s cache e le lt =
    let part = first_word (calculate_epoch_seed n) in
    elim (ℕ_discrete (first_word s) (first_word (calculate_epoch_seed n))) [
      | yes same ↦
          rw (find_from-hit tries i (first_word (calculate_epoch_seed n)) s cache same) (i, refl)
      | no other ↦
          let later : i ≢ n = λ same. other (ap first_word (e ∙ ap calculate_epoch_seed same)) in
          rw (find_from-next tries i (first_word (calculate_epoch_seed n)) s cache other) (
            find_from-Answers tries (i + 1) n (keccak256 (bytes s)) cache
              (ap (λ (h : Hash). keccak256 (bytes h)) e ∙ sym (epoch_seed_next i)) (omega arith)
              (omega arith))
    ]

-- If the thread's cache holds an epoch with its seed, whichever it is, the search for the seed of
-- any of the first 30000 epochs gives an answer.
pub find_epoch_number-Answers :
    (n : ℕ) (cache : SeedCache)
    → n < 30000
    → IsCoherent cache
    → Answers (find_epoch_number (calculate_epoch_seed n) cache)
find_epoch_number-Answers n cache lt c =
    find_cases Answers (calculate_epoch_seed n) cache c (λ e cache' same c'. (e, refl))
      (find_from-Answers num_tries 0 n zero_hash cache epoch_seed_zero (omega arith) (omega arith))
