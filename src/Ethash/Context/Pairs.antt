-- ===== src/Ethash/Context/Pairs.antt =====
-- Pairs of 128-byte items of the dataset that are filled together, as libethash/progpow.cpp reads them
-- and generic::create_epoch_context of libethash/ethash.cpp fills them.
use native.Mathlib.Decide.{ℕ_discrete}
use quai_gpu_miner_archive.Ethash.Hash.{Hash, IsHash1024, IsHash2048, word64s}
use quai_gpu_miner_archive.Ethash.Dataset.{Context, calculate_dataset_item_2048}
use quai_gpu_miner_archive.Ethash.Dataset.Sizes.{IsContext, calculate_dataset_item_2048-IsHash2048}
use quai_gpu_miner_archive.Ethash.Context.{store_2048, fill_l1, concat_items}
use quai_gpu_miner_archive.Ethash.Context.Filling.{
  take-eq, drop-eq, calculate_dataset_item_2048-Halves, get_elem?-replicate,
}
use quai_gpu_miner_archive.Prelude.{
  ℕ, zero, suc, ◌+◌, ◌*◌, ◌≤◌, ◌<◌, ◌≡◌, refl, sym, ap, ◌∙◌, ◌≢◌, ◌⊎◌, inl, inr, some, List, [],
  ◌∷◌, ◌++◌, arith, for_range, Returns, Returns-at, for_range-Returns, length, get_elem?, get_or,
  set, take, replicate, length-append, length-set, get_elem?-set_self, get_elem?-set_ne,
  get_elem?-lt, length-replicate, All, All-set,
}

-- `n` items of 32 words whose pairs are filled together: the first half of a pair is zero in its first
-- word, or both halves are right.
pub record IsPairs (context : Context) (n : ℕ) (items : List Hash) : Type 0 where
  pub size : length items ≡ n
  pub sized : All IsHash1024 items
  pub agrees :
      (i : ℕ) (a b : Hash)
      → get_elem? items (2 * i) ≡ some a
      → get_elem? items (2 * i + 1) ≡ some b
      → (get_or (word64s a) 0 0 ≡ 0) ⊎ (calculate_dataset_item_2048 context i ≡ some (a ++ b))

abbrev pub IsPaired : Context → List Hash → Type 0
IsPaired context items = IsPairs context context.full_dataset_num_items items

-- The pair `i` set to the halves `a` and `b`.
abbrev pub set_pair : List Hash → ℕ → Hash → Hash → List Hash
set_pair items i a b = set (set items (2 * i) a) (2 * i + 1) b

module _ (items : List Hash) (i : ℕ) (a b : Hash) where
  set_pair-first : 2 * i + 1 < length items → get_elem? (set_pair items i a b) (2 * i) ≡ some a
  set_pair-first lt =
      get_elem?-set_ne (set items (2 * i) a) (2 * i + 1) (2 * i) b (λ e. omega arith)
      ∙ get_elem?-set_self items (2 * i) a (omega arith)

  set_pair-second : 2 * i + 1 < length items → get_elem? (set_pair items i a b) (2 * i + 1) ≡ some b
  set_pair-second lt =
      get_elem?-set_self (set items (2 * i) a) (2 * i + 1) b (rw (length-set items (2 * i) a) lt)

  set_pair-other :
      (k : ℕ) → k ≢ 2 * i → k ≢ 2 * i + 1 → get_elem? (set_pair items i a b) k ≡ get_elem? items k
  set_pair-other k ne ne' =
      get_elem?-set_ne (set items (2 * i) a) (2 * i + 1) k b (λ e. ne' (sym e))
      ∙ get_elem?-set_ne items (2 * i) k a (λ e. ne (sym e))

  pub store_2048-some :
      2 * i + 1 < length items
      → length a ≡ 32
      → store_2048 items i (a ++ b) ≡ some (set_pair items i a b)
  unfolding store_2048
  store_2048-some lt sized =
      let (old, e) = get_elem?-lt items (2 * i) (omega arith) in
      let in_range : 2 * i + 1 < length (set items (2 * i) a) =
        rw (length-set items (2 * i) a) lt in
      let (old', e') = get_elem?-lt (set items (2 * i) a) (2 * i + 1) in_range in
      rw (take-eq 32 a b sized, drop-eq 32 a b sized, e, e')

set_pair-right :
    (context : Context) (items : List Hash) (i j : ℕ) (a b a' b' : Hash)
    → 2 * i + 1 < length items
    → calculate_dataset_item_2048 context i ≡ some (a ++ b)
    → i ≡ j
    → get_elem? (set_pair items i a b) (2 * j) ≡ some a'
    → get_elem? (set_pair items i a b) (2 * j + 1) ≡ some b'
    → calculate_dataset_item_2048 context j ≡ some (a' ++ b')
set_pair-right context items i j a b a' b' lt right same e e' =
    let first : a ≡ a' = cc (
      sym (set_pair-first items i a b lt)
      ∙ ap (λ (k : ℕ). get_elem? (set_pair items i a b) (2 * k)) same
      ∙ e) in
    let second : b ≡ b' = cc (
      sym (set_pair-second items i a b lt)
      ∙ ap (λ (k : ℕ). get_elem? (set_pair items i a b) (2 * k + 1)) same
      ∙ e') in
    rw (← first, ← second, ← same) right

pub set_pair-IsPairs :
    (context : Context) (n : ℕ) (items : List Hash) (i : ℕ) (a b : Hash)
    → IsPairs context n items
    → 2 * i + 1 < length items
    → IsHash1024 a
    → IsHash1024 b
    → calculate_dataset_item_2048 context i ≡ some (a ++ b)
    → IsPairs context n (set_pair items i a b)
set_pair-IsPairs context n items i a b d lt a_sized b_sized right = record {
  size = length-set (set items (2 * i) a) (2 * i + 1) b ∙ length-set items (2 * i) a ∙ d.size;
  sized =
      All-set IsHash1024 (set items (2 * i) a) (2 * i + 1) b
        (All-set IsHash1024 items (2 * i) a d.sized a_sized) b_sized;
  agrees = λ j a' b' e e'. elim (ℕ_discrete i j) [
    | yes same ↦ inr (set_pair-right context items i j a b a' b' lt right same e e')
    | no ne ↦
        d.agrees j a' b'
          (sym (set_pair-other items i a b (2 * j) (λ e. omega arith) (λ e. omega arith)) ∙ e)
          (sym (set_pair-other items i a b (2 * j + 1) (λ e. omega arith) (λ e. omega arith)) ∙ e')
  ];
}

-- The two halves of an item, both of 32 words.
pub calculate_dataset_item_2048-halves :
    (context : Context)
    → IsContext context
    → (i : ℕ)
    → (a b : Hash) × (calculate_dataset_item_2048 context i ≡ some (a ++ b))
      × IsHash1024 a
      × IsHash1024 b
calculate_dataset_item_2048-halves context c i =
    let (a, b, right, a_sized, _, _) = calculate_dataset_item_2048-Halves context c i in
    let whole : IsHash2048 (a ++ b) =
      Returns-at IsHash2048 (calculate_dataset_item_2048 context i) (a ++ b)
        (calculate_dataset_item_2048-IsHash2048 context c i) right in
    (a, b, right, a_sized, omega (arith, whole, a_sized, length-append a b))

fill_l1-IsPairs :
    (context : Context) (n i : ℕ) (items : List Hash)
    → IsContext context
    → 2 * i + 1 < n
    → IsPairs context n items
    → Returns (IsPairs context n) (fill_l1 context i items)
unfolding fill_l1
fill_l1-IsPairs context n i items c lt d =
    let (a, b, right, a_sized, b_sized) = calculate_dataset_item_2048-halves context c i in
    let in_range : 2 * i + 1 < length items = omega (arith, d.size) in
    rw (right, store_2048-some items i a b in_range a_sized)
      (set_pair-IsPairs context n items i a b d in_range a_sized b_sized right)

pub fresh-IsPairs : (context : Context) (n : ℕ) → IsPairs context n (replicate n (replicate 32 0))
fresh-IsPairs context n = record {
  size = length-replicate n (replicate 32 0);
  sized = All-replicate n;
  agrees = λ i a b e e'. inl (rw (get_elem?-replicate n (2 * i) (replicate 32 0) a e) first_zero);
}
  where
    first_zero : get_or (word64s (replicate 32 0)) 0 0 ≡ 0
    first_zero = unfold word64s in refl

    All-replicate : (n : ℕ) → All IsHash1024 (replicate n (replicate 32 0))
    All-replicate zero = tt
    All-replicate (suc n) = (refl, All-replicate n)

pub fill_loop-IsPairs :
    (context : Context) (n : ℕ)
    → IsContext context
    → 128 ≤ n
    → Returns (IsPairs context n) (for_range 64 0 (fill_l1 context) (replicate n (replicate 32 0)))
fill_loop-IsPairs context n c le =
    for_range-Returns (IsPairs context n) (fill_l1 context) 64
      (λ i items lt d. fill_l1-IsPairs context n i items c (omega arith) d) 64 0
      (replicate n (replicate 32 0)) (omega arith) (fresh-IsPairs context n)

-- The L1 cache: 4096 words of the first 128 items.
pub length-concat_items :
    (k : ℕ) (items : List Hash)
    → k ≤ length items
    → All IsHash1024 items
    → length (concat_items (take k items)) ≡ k * 32
length-concat_items zero items le h = omega arith
length-concat_items (suc k) [] le h = elim le [ ]
length-concat_items (suc k) (item ∷ items) le h = omega (
  arith,
  length-append item (concat_items (take k items)),
  h.0,
  length-concat_items k items (omega arith) h.1,
)
