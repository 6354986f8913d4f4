-- ===== src/Ethash/Kernel/Nonces.antt =====
-- The loop over nonces that the searches of libethash/ethash.cpp and libethash/progpow.cpp share, for
-- any way to hash a nonce that always gives what `light` gives and may change a state `D`.
use native.Mathlib.Decide.{ℕ_discrete, dec_le, dec_lt}
use quai_gpu_miner_archive.Ethash.Hash.{Hash, is_less_or_equal}
use quai_gpu_miner_archive.Ethash.Kernel.{
  HashResult, SearchResult, no_solution, solution, search_from, search_with,
}
use quai_gpu_miner_archive.Prelude.{
  ℕ, zero, suc, ◌+◌, ◌-◌, ◌≤◌, ◌<◌, ◌≡◌, refl, sym, ap, ◌∙◌, subst, ◌⊎◌, inl, inr, Bool, true,
  false, Option, some, arith, Bool-cases, u64,
}

module _ (light : ℕ → Option HashResult) (boundary : Hash) where
  -- The hash at a nonce, and whether it is within the boundary.
  abbrev pub Tries : ℕ → HashResult → Bool → Type 0
  Tries nonce r within = (light nonce ≡ some r) × (is_less_or_equal r.final_hash boundary ≡ within)

  -- What a search of the nonces from `first` up to `last` (excluded) is to return: the first nonce
  -- within the boundary with its result, or no solution where there is none.
  abbrev pub IsFirst : ℕ → ℕ → SearchResult → Type 0
  IsFirst first last s =
      ((r : HashResult) × (nonce : ℕ) × (s ≡ solution r nonce)
        × (first ≤ nonce)
        × (nonce < last)
        × Tries nonce r true
        × ((m : ℕ) → first ≤ m → m < nonce → (q : HashResult) × Tries m q false))
      ⊎ ((s ≡ no_solution) × ((m : ℕ) → first ≤ m → m < last → (q : HashResult) × Tries m q false))

  Tries-clash : (nonce : ℕ) (r q : HashResult) → Tries nonce r true → Tries nonce q false → ⊥
  Tries-clash nonce r q (e, hit) (d, miss) =
      let same : r ≡ q = cc (sym e ∙ d) in
      let both_ways : true ≡ false =
        sym hit ∙ ap (λ (h : HashResult). is_less_or_equal h.final_hash boundary) same ∙ miss in
      cc both_ways

  solution_unique :
      (m n : ℕ) (r q : HashResult)
      → m ≡ n
      → Tries m r true
      → Tries n q true
      → solution r m ≡ solution q n
  solution_unique m n r q same (e, hit) (d, hit') =
      let one : r ≡ q = cc (sym e ∙ ap light same ∙ d) in
      ap (λ (h : HashResult). solution h m) one ∙ ap (solution q) same

  -- There is one such result.
  pub IsFirst-unique :
      (first last : ℕ) (s t : SearchResult) → IsFirst first last s → IsFirst first last t → s ≡ t
  IsFirst-unique first last s t (inl (r, m, e, le, lt, hit, before))
        (inl (q, n, d, le', lt', hit', before')) =
      elim (ℕ_discrete m n) [
        | yes same ↦ e ∙ solution_unique m n r q same hit hit' ∙ sym d
        | no ne ↦ elim (dec_lt m n) [
          | yes m_lt ↦ let (h, miss) = before' m le m_lt in absurd (Tries-clash m r h hit miss)
          | no ge ↦
              let (h, miss) = before n le' (omega arith) in absurd (Tries-clash n q h hit' miss)
        ]
      ]
  IsFirst-unique first last s t (inl (r, m, e, le, lt, hit, before)) (inr (d, none_hit)) =
      let (h, miss) = none_hit m le lt in absurd (Tries-clash m r h hit miss)
  IsFirst-unique first last s t (inr (e, none_hit)) (inl (q, n, d, le, lt, hit, before)) =
      let (h, miss) = none_hit n le lt in absurd (Tries-clash n q h hit miss)
  IsFirst-unique first last s t (inr (e, none_hit)) (inr (d, none_hit')) = e ∙ sym d

  miss_before :
      (first stop : ℕ) (r : HashResult)
      → Tries first r false
      → ((m : ℕ) → first + 1 ≤ m → m < stop → (q : HashResult) × Tries m q false)
      → (m : ℕ) → first ≤ m
      → m < stop
      → (q : HashResult) × Tries m q false
  miss_before first stop r miss rest m le lt = elim (ℕ_discrete m first) [
    | yes e ↦ (r, subst (λ k. Tries k r false) (sym e) miss)
    | no ne ↦ rest m (omega arith) lt
  ]

  IsFirst-later :
      (first last : ℕ) (r : HashResult) (s : SearchResult)
      → Tries first r false
      → IsFirst (first + 1) last s
      → IsFirst first last s
  IsFirst-later first last r s miss (inl (q, nonce, e, le, lt, hit, before)) =
      inl (q, nonce, e, omega arith, lt, hit, miss_before first nonce r miss before)
  IsFirst-later first last r s miss (inr (e, none_hit)) =
      inr (e, miss_before first last r miss none_hit)

  module _ {D : Type 0} (hash_at : ℕ → D → Option (HashResult × D)) (R : D → Type 0)
      (agree : (nonce : ℕ) (d : D)
        → R d
        → (r : HashResult) × (d' : D) × (hash_at nonce d ≡ some (r, d'))
          × (light nonce ≡ some r)
          × R d') where
    search_from-hit :
        (n nonce : ℕ) (d d' : D) (r : HashResult)
        → hash_at nonce d ≡ some (r, d')
        → is_less_or_equal r.final_hash boundary ≡ true
        → search_from hash_at boundary (suc n) nonce d ≡ some (solution r nonce, d')
    unfolding search_from
    search_from-hit n nonce d d' r e hit = ground arith

    search_from-miss :
        (n nonce : ℕ) (d d' : D) (r : HashResult)
        → hash_at nonce d ≡ some (r, d')
        → is_less_or_equal r.final_hash boundary ≡ false
        → search_from hash_at boundary (suc n) nonce d
          ≡ search_from hash_at boundary n (nonce + 1) d'
    unfolding search_from
    search_from-miss n nonce d d' r e miss = ground arith

    search_from-IsFirst :
        (n first last : ℕ) (d : D)
        → first + n ≡ last
        → R d
        → (s : SearchResult) × (d' : D) × (search_from hash_at boundary n first d ≡ some (s, d'))
          × IsFirst first last s
          × R d'
    unfolding search_from
    search_from-IsFirst zero first last d e h =
        (no_solution, d, refl, inr (refl, λ m le lt. absurd (omega arith)), h)
    search_from-IsFirst (suc n) first last d e h =
        let (r, d1, hashed, tried, h1) = agree first d h in
        let (s, d2, rest, is_first, h2) =
          search_from-IsFirst n (first + 1) last d1 (omega arith) h1 in
        elim (Bool-cases (is_less_or_equal r.final_hash boundary)) [
          | inl hit ↦ (
            solution r first,
            d1,
            search_from-hit n first d d1 r hashed hit,
            inl (
              r,
              first,
              refl,
              omega arith,
              omega arith,
              (tried, hit),
              λ m le m_lt. absurd (omega arith),
            ),
            h1,
          )
          | inr miss ↦ (
            s,
            d2,
            search_from-miss n first d d1 r hashed miss ∙ rest,
            IsFirst-later first last r s (tried, miss) is_first,
            h2,
          )
        ]

    -- A search that cannot fail to hash returns the first solution below the end of its range, as 64
    -- bits hold the end.
    pub search_with-IsFirst :
        (start_nonce iterations : ℕ) (d : D)
        → R d
        → (s : SearchResult) × (d' : D) × (search_with hash_at boundary start_nonce iterations d
            ≡ some (s, d'))
          × IsFirst start_nonce (u64 (start_nonce + iterations)) s
          × R d'
    unfolding search_with
    search_with-IsFirst start_nonce iterations d h =
        let last = u64 (start_nonce + iterations) in
        elim (dec_le start_nonce last) [
          | yes le ↦ search_from-IsFirst (last - start_nonce) start_nonce last d (omega arith) h
          | no past ↦
              let none_left : last - start_nonce ≡ 0 = omega arith in
              (no_solution, d, rw none_left, inr (refl, λ m le lt. absurd (omega arith)), h)
        ]
