-- ===== src/Progpow/Round.antt =====
-- `round` of libethash/progpow.cpp, over the lookup of a dataset item, which may change the dataset
-- `D`. `none` is a read or a write outside an array.
pub mod Safety
use quai_gpu_miner_archive.Ethash.Hash.{Hash}
use quai_gpu_miner_archive.Ethash.Dataset.{Context}
use quai_gpu_miner_archive.Progpow.{Kiss99, kiss99_next, MixRngState}
use quai_gpu_miner_archive.Progpow.Merge.{random_math, random_merge}
use quai_gpu_miner_archive.Prelude.{
  ℕ, zero, suc, ◌+◌, ◌-◌, ◌*◌, ◌/◌, ◌%◌, bit_xor, Option, some, List, [], ◌∷◌, ltb, leb, ◌==◌,
  if◌then◌else◌, ◌>>=◌, for_range, get_elem?, set, u32, u64,
}

-- `dst_seq[(dst_counter++) % num_regs]`.
unfoldable pub next_dst : MixRngState → Option (ℕ × MixRngState)
next_dst s = do
  dst ← get_elem? s.dst_seq (s.dst_counter % 32)
  some (dst, record s { dst_counter = u64 (s.dst_counter + 1) })

unfoldable pub next_src : MixRngState → Option (ℕ × MixRngState)
next_src s = do
  src ← get_elem? s.src_seq (s.src_counter % 32)
  some (src, record s { src_counter = u64 (s.src_counter + 1) })

-- `state.rng()`.
unfoldable pub next_rng : MixRngState → ℕ × MixRngState
next_rng s = let (r, rng) = kiss99_next s.rng in (r, record s { rng = rng })

-- The registers of a lane.
abbrev pub Lane : Type 0
Lane = List ℕ

abbrev pub Mix : Type 0
Mix = List Lane

-- `random_merge(mix[l][dst], data, sel)`.
unfoldable pub merge_at : ℕ → ℕ → ℕ → Lane → Option Lane
merge_at dst word sel lane = do
  a ← get_elem? lane dst
  some (set lane dst (random_merge a word sel))

-- `for (l = ...; l < num_lanes; ++l)`, from lane `l` on.
unfoldable pub for_lanes : (ℕ → Lane → Option Lane) → ℕ → Mix → Option Mix
for_lanes body l [] = some []
for_lanes body l (lane ∷ mix) = do
  lane ← body l lane
  mix ← for_lanes body (l + 1) mix
  some (lane ∷ mix)

abbrev pub l1_cache_num_items : ℕ
l1_cache_num_items = 4096

-- A merge with a word of the L1 cache, in one lane.
unfoldable pub cache_access_lane : List ℕ → ℕ → ℕ → ℕ → Lane → Option Lane
cache_access_lane l1_cache src dst sel lane = do
  a ← get_elem? lane src
  word ← get_elem? l1_cache (a % l1_cache_num_items)
  merge_at dst word sel lane

unfoldable pub cache_access : List ℕ → Mix × MixRngState → Option (Mix × MixRngState)
cache_access l1_cache (mix, state) = do
  (src, state) ← next_src state
  (dst, state) ← next_dst state
  let drawn = next_rng state
  mix ← for_lanes (λ l. cache_access_lane l1_cache src dst drawn.0) 0 mix
  some (mix, drawn.1)

-- Random math in one lane.
unfoldable pub math_lane : ℕ → ℕ → ℕ → ℕ → ℕ → Lane → Option Lane
math_lane src1 src2 sel1 dst sel2 lane = do
  a ← get_elem? lane src1
  b ← get_elem? lane src2
  merge_at dst (random_math a b sel1) sel2 lane

-- The two sources of a draw; the second is not the first.
unfoldable pub sources : ℕ → ℕ × ℕ
sources r =
    let src_rnd = r % (32 * (32 - 1)) in
    let src1 = src_rnd % 32 in
    let src2 = src_rnd / 32 in (src1, if leb src1 src2 then src2 + 1 else src2)

unfoldable pub math_operation : Mix × MixRngState → Option (Mix × MixRngState)
math_operation (mix, state) = do
  let drawn = next_rng state
  let (src1, src2) = sources drawn.0
  let drawn1 = next_rng drawn.1
  (dst, state) ← next_dst drawn1.1
  let drawn2 = next_rng state
  mix ← for_lanes (λ l. math_lane src1 src2 drawn1.0 dst drawn2.0) 0 mix
  some (mix, drawn2.1)

abbrev pub num_cache_accesses : ℕ
num_cache_accesses = 11

abbrev pub num_math_operations : ℕ
num_math_operations = 18

abbrev pub max_operations : ℕ
max_operations =
    if ltb num_math_operations num_cache_accesses then num_cache_accesses else num_math_operations

-- One turn of the loop over the operations.
unfoldable pub operation : List ℕ → ℕ → Mix × MixRngState → Option (Mix × MixRngState)
operation l1_cache i s = do
  s ← if ltb i num_cache_accesses then cache_access l1_cache s else some s
  if ltb i num_math_operations then math_operation s else some s

-- The registers and selectors of the DAG access, from word `i` on, `n` of them.
unfoldable pub dag_pattern : ℕ → ℕ → MixRngState → Option (List (ℕ × ℕ))
dag_pattern zero i state = some []
dag_pattern (suc n) i state = do
  (dst, state) ← if i == 0 then some (0, state) else next_dst state
  let drawn = next_rng state
  rest ← dag_pattern n (i + 1) drawn.1
  some ((dst, drawn.0) ∷ rest)

-- The inner loop of the DAG access: the words of the item from `offset` on.
unfoldable pub dag_lane : Hash → ℕ → List (ℕ × ℕ) → Lane → Option Lane
dag_lane item offset [] lane = some lane
dag_lane item offset ((dst, sel) ∷ rest) lane = do
  word ← get_elem? item offset
  lane ← merge_at dst word sel lane
  dag_lane item (offset + 1) rest lane

abbrev pub num_words_per_lane : ℕ
num_words_per_lane = 4

-- What `round` does with the item.
unfoldable pub round_with : List ℕ → ℕ → Hash → Mix → MixRngState → Option Mix
round_with l1_cache r item mix state = do
  (mix, state) ← for_range max_operations 0 (operation l1_cache) (mix, state)
  pattern_ ← dag_pattern num_words_per_lane 0 state
  for_lanes (λ l. dag_lane item (bit_xor l r % 16 * num_words_per_lane) pattern_) 0 mix

-- `mix[r % num_lanes][0] % num_items`.
unfoldable pub item_index : Context → ℕ → Mix → Option ℕ
item_index context r mix = do
  lane ← get_elem? mix (r % 16)
  a ← get_elem? lane 0
  some (a % u32 (context.full_dataset_num_items / 2))

unfoldable pub round :
    {D : Type 0}
    → (D → ℕ → Option (Hash × D))
    → Context
    → MixRngState
    → ℕ
    → Mix × D
    → Option (Mix × D)
round lookup context state r (mix, d) = do
  index ← item_index context r mix
  (item, d) ← lookup d index
  mix ← round_with context.l1_cache r item mix state
  some (mix, d)
