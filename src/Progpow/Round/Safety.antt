-- ===== src/Progpow/Round/Safety.antt =====
-- Reads and writes of `round` of libethash/progpow.cpp.
use quai_gpu_miner_archive.Ethash.Hash.{Hash, IsHash2048}
use quai_gpu_miner_archive.Progpow.{MixRngState}
use quai_gpu_miner_archive.Progpow.Shuffle.{IsOrder}
use quai_gpu_miner_archive.Progpow.Merge.{random_math, random_merge}
use quai_gpu_miner_archive.Progpow.Round.{
  next_dst, next_src, next_rng, Lane, Mix, merge_at, for_lanes, cache_access_lane, cache_access,
  math_lane, sources, math_operation, operation, dag_pattern, dag_lane, round_with, item_index,
  Context,
}
use quai_gpu_miner_archive.Prelude.{
  ℕ, zero, suc, ◌+◌, ◌*◌, ◌%◌, ◌^◌, ◌≤◌, ◌<◌, bit_xor, ◌≡◌, refl, ap, ◌∙◌, ◌≢◌, Bool, true, false,
  Option, some, List, [], ◌∷◌, arith, ltb, ◌==◌, if◌then◌else◌, Returns, Returns->>=, Returns-mono,
  get_elem?-Returns, for_range-Returns, length, get_elem?, length-set, get_elem?-lt, All,
}

abbrev pub IsLane : Lane → Type 0
IsLane lane = length lane ≡ 32

-- 16 lanes of 32 registers.
pub record IsMix (mix : Mix) : Type 0 where
  pub size : length mix ≡ 16
  pub lanes : All IsLane mix

-- The two sequences are orders of the registers.
pub record IsRng (s : MixRngState) : Type 0 where
  pub dst : IsOrder s.dst_seq
  pub src : IsOrder s.src_seq

abbrev Drawn : ℕ × MixRngState → Type 0
Drawn r = (r.0 < 32) × IsRng r.1

next_dst-Drawn : (s : MixRngState) → IsRng s → Returns Drawn (next_dst s)
unfolding next_dst
next_dst-Drawn s o =
    Returns->>= (λ v. v < 32) Drawn _ _
      (get_elem?-Returns (λ v. v < 32) s.dst_seq (s.dst_counter % 32) o.dst.below
        (omega (arith, o.dst.size)))
      (λ v lt. (lt, record { dst = o.dst; src = o.src }))

next_src-Drawn : (s : MixRngState) → IsRng s → Returns Drawn (next_src s)
unfolding next_src
next_src-Drawn s o =
    Returns->>= (λ v. v < 32) Drawn _ _
      (get_elem?-Returns (λ v. v < 32) s.src_seq (s.src_counter % 32) o.src.below
        (omega (arith, o.src.size)))
      (λ v lt. (lt, record { dst = o.dst; src = o.src }))

next_rng-IsRng : (s : MixRngState) → IsRng s → IsRng (next_rng s).1
unfolding next_rng
next_rng-IsRng s o = record { dst = o.dst; src = o.src }

-- A read in range.
get_elem?-Any :
    {A : Type 0} (xs : List A) (i : ℕ) → i < length xs → Returns (λ a. Unit) (get_elem? xs i)
get_elem?-Any xs i lt = let (a, e) = get_elem?-lt xs i lt in rw e tt

merge_at-IsLane :
    (dst word sel : ℕ) (lane : Lane)
    → dst < 32
    → IsLane lane
    → Returns IsLane (merge_at dst word sel lane)
unfolding merge_at
merge_at-IsLane dst word sel lane lt h =
    Returns->>= (λ a. Unit) IsLane _ _ (get_elem?-Any lane dst (omega (arith, h)))
      (λ a _. length-set lane dst (random_merge a word sel) ∙ h)

for_lanes-IsMix :
    (body : ℕ → Lane → Option Lane) (l : ℕ) (mix : Mix)
    → ((l : ℕ) (lane : Lane) → IsLane lane → Returns IsLane (body l lane))
    → All IsLane mix
    → Returns (λ mix'. (length mix' ≡ length mix) × All IsLane mix') (for_lanes body l mix)
unfolding for_lanes
for_lanes-IsMix body l [] keep h = (refl, tt)
for_lanes-IsMix body l (lane ∷ mix) keep h =
    Returns->>= IsLane (λ mix'. (length mix' ≡ suc (length mix)) × All IsLane mix') _ _
      (keep l lane h.0)
      (λ lane' h'.
        Returns->>= (λ mix'. (length mix' ≡ length mix) × All IsLane mix')
          (λ mix'. (length mix' ≡ suc (length mix)) × All IsLane mix') _ _
          (for_lanes-IsMix body (l + 1) mix keep h.1) (λ mix' r. (ap suc r.0, (h', r.1))))

each_lane-IsMix :
    (body : ℕ → Lane → Option Lane) (mix : Mix)
    → ((l : ℕ) (lane : Lane) → IsLane lane → Returns IsLane (body l lane))
    → IsMix mix
    → Returns IsMix (for_lanes body 0 mix)
each_lane-IsMix body mix keep h =
    Returns-mono _ IsMix _ (for_lanes-IsMix body 0 mix keep h.lanes)
      (λ mix' r. record { size = r.0 ∙ h.size; lanes = r.1 })

abbrev IsState : Mix × MixRngState → Type 0
IsState s = IsMix s.0 × IsRng s.1

module _ (l1_cache : List ℕ) (l1 : length l1_cache ≡ 4096) where
  cache_access_lane-IsLane :
      (src dst sel : ℕ) (lane : Lane)
      → src < 32
      → dst < 32
      → IsLane lane
      → Returns IsLane (cache_access_lane l1_cache src dst sel lane)
  unfolding cache_access_lane
  cache_access_lane-IsLane src dst sel lane src_lt dst_lt h =
      Returns->>= (λ a. Unit) IsLane _ _ (get_elem?-Any lane src (omega (arith, h)))
        (λ a _.
          Returns->>= (λ a. Unit) IsLane _ _ (get_elem?-Any l1_cache (a % 4096) (omega (arith, l1)))
            (λ word _. merge_at-IsLane dst word sel lane dst_lt h))

  cache_access-IsState :
      (s : Mix × MixRngState) → IsState s → Returns IsState (cache_access l1_cache s)
  unfolding cache_access
  cache_access-IsState (mix, state) (m, o) =
      Returns->>= Drawn IsState _ _ (next_src-Drawn state o) (λ (src, s1) d1.
        Returns->>= Drawn IsState _ _ (next_dst-Drawn s1 d1.1) (λ (dst, s2) d2.
          Returns->>= IsMix IsState _ _
            (each_lane-IsMix (λ l. cache_access_lane l1_cache src dst (next_rng s2).0) mix
              (λ l lane h. cache_access_lane-IsLane src dst (next_rng s2).0 lane d1.0 d2.0 h) m)
            (λ mix' m'. (m', next_rng-IsRng s2 d2.1))))

-- The two sources of a draw are registers, and not the same.
pub sources_lem :
    (r : ℕ) → ((sources r).0 < 32) × ((sources r).1 < 32) × ((sources r).0 ≢ (sources r).1)
unfolding sources
sources_lem r = ground arith

math_lane-IsLane :
    (src1 src2 sel1 dst sel2 : ℕ) (lane : Lane)
    → src1 < 32
    → src2 < 32
    → dst < 32
    → IsLane lane
    → Returns IsLane (math_lane src1 src2 sel1 dst sel2 lane)
unfolding math_lane
math_lane-IsLane src1 src2 sel1 dst sel2 lane lt1 lt2 dst_lt h =
    Returns->>= (λ a. Unit) IsLane _ _ (get_elem?-Any lane src1 (omega (arith, h)))
      (λ a _.
        Returns->>= (λ a. Unit) IsLane _ _ (get_elem?-Any lane src2 (omega (arith, h)))
          (λ b _. merge_at-IsLane dst (random_math a b sel1) sel2 lane dst_lt h))

math_operation-IsState : (s : Mix × MixRngState) → IsState s → Returns IsState (math_operation s)
unfolding math_operation
math_operation-IsState (mix, state) (m, o) =
    let drawn = next_rng state in
    let drawn1 = next_rng drawn.1 in
    let (lt1, lt2, ne) = sources_lem drawn.0 in
    Returns->>= Drawn IsState _ _
      (next_dst-Drawn drawn1.1 (next_rng-IsRng drawn.1 (next_rng-IsRng state o)))
      (λ (dst, s2) d.
        Returns->>= IsMix IsState _ _
          (each_lane-IsMix
            (λ l. math_lane (sources drawn.0).0 (sources drawn.0).1 drawn1.0 dst (next_rng s2).0)
            mix (λ l lane h. math_lane-IsLane _ _ drawn1.0 dst (next_rng s2).0 lane lt1 lt2 d.0 h)
            m)
          (λ mix' m'. (m', next_rng-IsRng s2 d.1)))

operation-IsState :
    (l1_cache : List ℕ) (i : ℕ) (s : Mix × MixRngState)
    → length l1_cache ≡ 4096
    → IsState s
    → Returns IsState (operation l1_cache i s)
unfolding operation
operation-IsState l1_cache i s l1 h =
    Returns->>= IsState IsState _ _ (accessed (ltb i 11)) (λ s' h'. calculated (ltb i 18) s' h')
  where
    accessed : (b : Bool) → Returns IsState (if b then cache_access l1_cache s else some s)
    accessed true = cache_access-IsState l1_cache l1 s h
    accessed false = h

    calculated :
        (b : Bool) (s' : Mix × MixRngState)
        → IsState s'
        → Returns IsState (if b then math_operation s' else some s')
    calculated true s' h' = math_operation-IsState s' h'
    calculated false s' h' = h'

-- The registers of a pattern.
abbrev IsPattern : ℕ → List (ℕ × ℕ) → Type 0
IsPattern n pattern_ = (length pattern_ ≡ n) × All (λ p. p.0 < 32) pattern_

dag_pattern-IsPattern :
    (n i : ℕ) (state : MixRngState) → IsRng state → Returns (IsPattern n) (dag_pattern n i state)
unfolding dag_pattern
dag_pattern-IsPattern zero i state o = (refl, tt)
dag_pattern-IsPattern (suc n) i state o =
    Returns->>= Drawn (IsPattern (suc n)) _ _ (first (i == 0)) (λ (dst, s) d.
      Returns->>= (IsPattern n) (IsPattern (suc n)) _ _
        (dag_pattern-IsPattern n (i + 1) (next_rng s).1 (next_rng-IsRng s d.1))
        (λ rest r. (ap suc r.0, (d.0, r.1))))
  where
    first : (b : Bool) → Returns Drawn (if b then some (0, state) else next_dst state)
    first true = (omega arith, o)
    first false = next_dst-Drawn state o

dag_lane-IsLane :
    (item : Hash) (offset : ℕ) (pattern_ : List (ℕ × ℕ)) (lane : Lane)
    → offset + length pattern_ ≤ length item
    → All (λ p. p.0 < 32) pattern_
    → IsLane lane
    → Returns IsLane (dag_lane item offset pattern_ lane)
unfolding dag_lane
dag_lane-IsLane item offset [] lane le p h = h
dag_lane-IsLane item offset ((dst, sel) ∷ rest) lane le p h =
    Returns->>= (λ a. Unit) IsLane _ _ (get_elem?-Any item offset (omega arith))
      (λ word _.
        Returns->>= IsLane IsLane _ _ (merge_at-IsLane dst word sel lane p.0 h)
          (λ lane' h'. dag_lane-IsLane item (offset + 1) rest lane' (omega arith) p.1 h'))

pub round_with-IsMix :
    (l1_cache : List ℕ) (r : ℕ) (item : Hash) (mix : Mix) (state : MixRngState)
    → length l1_cache ≡ 4096
    → IsHash2048 item
    → IsMix mix
    → IsRng state
    → Returns IsMix (round_with l1_cache r item mix state)
unfolding round_with
round_with-IsMix l1_cache r item mix state l1 sized m o =
    Returns->>= IsState IsMix _ _
      (for_range-Returns IsState (operation l1_cache) 18
        (λ i s lt h. operation-IsState l1_cache i s l1 h) 18 0 (mix, state) (omega arith) (m, o))
      (λ (mix', state') h.
        Returns->>= (IsPattern 4) IsMix _ _ (dag_pattern-IsPattern 4 0 state' h.1) (λ pattern_ p.
          each_lane-IsMix (λ l. dag_lane item (bit_xor l r % 16 * 4) pattern_) mix'
            (λ l lane h'.
              dag_lane-IsLane item (bit_xor l r % 16 * 4) pattern_ lane (omega (arith, p.0, sized))
                p.1 h')
            h.0))

pub item_index-lt :
    (context : Context) (r : ℕ) (mix : Mix)
    → 2 ≤ context.full_dataset_num_items
    → context.full_dataset_num_items < 2 ^ 32
    → IsMix mix
    → Returns (λ index. 2 * index + 1 < context.full_dataset_num_items) (item_index context r mix)
unfolding item_index
item_index-lt context r mix two fits m =
    Returns->>= IsLane _ _ _ (get_elem?-Returns IsLane mix (r % 16) m.lanes (omega (arith, m.size)))
      (λ lane h.
        Returns->>= (λ a. Unit) _ _ _ (get_elem?-Any lane 0 (omega (arith, h)))
          (λ a _. omega arith))
