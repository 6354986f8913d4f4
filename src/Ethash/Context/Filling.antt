-- ===== src/Ethash/Context/Filling.antt =====
-- The L1 cache and the first items of a full dataset, as creating a context fills them.
use quai_gpu_miner_archive.Ethash.Cache.Laws.{IsCache}
use mathlib.Core.List.{append_assoc}
use quai_gpu_miner_archive.Ethash.Hash.{Hash, word64s, IsHash512}
use quai_gpu_miner_archive.Ethash.Cache.{store}
use quai_gpu_miner_archive.Ethash.Dataset.{
  Context, calculate_dataset_item_512, calculate_dataset_item_1024, calculate_dataset_item_2048,
}
use quai_gpu_miner_archive.Ethash.Dataset.Laws.{
  calculate_dataset_item_1024-512, calculate_dataset_item_2048-512,
}
use quai_gpu_miner_archive.Ethash.Dataset.Sizes.{IsContext, calculate_dataset_item_512-IsHash512}
use quai_gpu_miner_archive.Ethash.Kernel.Lazy.{IsFilled, set-IsFilled}
use quai_gpu_miner_archive.Ethash.Context.{store_2048, fill_l1}
use quai_gpu_miner_archive.Prelude.{
  ℕ, zero, suc, ◌+◌, ◌*◌, ◌≤◌, ◌<◌, ◌≡◌, refl, ap, ◌∙◌, subst, inl, some, List, [], ◌∷◌, ◌++◌,
  arith, for_range, Returns, Returns->>=, Returns-eq_some, for_range-Returns, length, get_elem?,
  get_or, take, drop, replicate, length-append, get_elem?-lt, length-replicate, All,
}

take-append : (xs ys : Hash) → take (length xs) (xs ++ ys) ≡ xs
take-append [] ys = refl
take-append (x ∷ xs) ys = rw (take-append xs ys)

drop-append : (xs ys : Hash) → drop (length xs) (xs ++ ys) ≡ ys
drop-append [] ys = refl
drop-append (x ∷ xs) ys = drop-append xs ys

pub take-eq : (n : ℕ) (xs ys : Hash) → length xs ≡ n → take n (xs ++ ys) ≡ xs
take-eq n xs ys e = subst (λ k. take k (xs ++ ys) ≡ xs) e (take-append xs ys)

pub drop-eq : (n : ℕ) (xs ys : Hash) → length xs ≡ n → drop n (xs ++ ys) ≡ ys
drop-eq n xs ys e = subst (λ k. drop k (xs ++ ys) ≡ ys) e (drop-append xs ys)

-- A 2048-bit item is two 1024-bit items, one behind the other.
abbrev pub Halves : Context → ℕ → Type 0
Halves context i =
    (a b : Hash) × (calculate_dataset_item_2048 context i ≡ some (a ++ b))
    × (length a ≡ 32)
    × (calculate_dataset_item_1024 context (2 * i) ≡ some a)
    × (calculate_dataset_item_1024 context (2 * i + 1) ≡ some b)

quarters :
    (context : Context) (i : ℕ) (h0 h1 h2 h3 : Hash)
    → calculate_dataset_item_512 context (i * 4) ≡ some h0
    → calculate_dataset_item_512 context (i * 4 + 1) ≡ some h1
    → calculate_dataset_item_512 context (i * 4 + 2) ≡ some h2
    → calculate_dataset_item_512 context (i * 4 + 3) ≡ some h3
    → IsHash512 h0
    → IsHash512 h1
    → Halves context i
quarters context i h0 h1 h2 h3 e0 e1 e2 e3 s0 s1 = (
  h0 ++ h1,
  h2 ++ h3,
  calculate_dataset_item_2048-512 context i
      ∙ rw (e0, e1, e2, e3) (ap some (append_assoc (h0 ++ h1) h2 h3)),
  length-append h0 h1 ∙ rw (s0, s1),
  calculate_dataset_item_1024-512 context (2 * i) ∙ rw (first, e0, e1),
  calculate_dataset_item_1024-512 context (2 * i + 1) ∙ rw (second, second_next, e2, e3),
)
  where
    first : 2 * i * 2 ≡ i * 4
    first = omega arith

    second : (2 * i + 1) * 2 ≡ i * 4 + 2
    second = omega arith

    second_next : i * 4 + 2 + 1 ≡ i * 4 + 3
    second_next = omega arith

pub calculate_dataset_item_2048-Halves :
    (context : Context) → IsContext context → (i : ℕ) → Halves context i
calculate_dataset_item_2048-Halves context c i =
    let (h0, e0, s0) = item (i * 4) in
    let (h1, e1, s1) = item (i * 4 + 1) in
    let (h2, e2, s2) = item (i * 4 + 2) in
    let (h3, e3, s3) = item (i * 4 + 3) in quarters context i h0 h1 h2 h3 e0 e1 e2 e3 s0 s1
  where
    item : (k : ℕ) → (h : Hash) × (calculate_dataset_item_512 context k ≡ some h) × IsHash512 h
    item k =
        Returns-eq_some IsHash512 (calculate_dataset_item_512 context k)
          (calculate_dataset_item_512-IsHash512 context c k)

-- A write in range.
store-IsFilled :
    (context : Context) (n : ℕ) (items : List Hash) (i : ℕ) (item : Hash)
    → calculate_dataset_item_1024 context i ≡ some item
    → i < n
    → IsFilled context n items
    → Returns (IsFilled context n) (store items i item)
store-IsFilled context n items i item right lt d =
    Returns->>= (λ old. Unit) (IsFilled context n) (get_elem? items i) _ in_range
      (λ old _. set-IsFilled context n items i item right length_lt d)
  where
    length_lt : i < length items
    length_lt = omega (arith, d.size)

    in_range : Returns (λ old. Unit) (get_elem? items i)
    in_range = let (old, e) = get_elem?-lt items i length_lt in rw e tt

fill_l1-IsFilled :
    (context : Context) (n i : ℕ) (items : List Hash)
    → IsContext context
    → 2 * i + 1 < n
    → IsFilled context n items
    → Returns (IsFilled context n) (fill_l1 context i items)
unfolding fill_l1 store_2048
fill_l1-IsFilled context n i items c lt d = stored (calculate_dataset_item_2048-Halves context c i)
  where
    stored : Halves context i → Returns (IsFilled context n) (fill_l1 context i items)
    stored (a, b, e, s, ea, eb) =
        rw (e, take-eq 32 a b s, drop-eq 32 a b s)
          (Returns->>= (IsFilled context n) (IsFilled context n) (store items (2 * i) a) _
            (store-IsFilled context n items (2 * i) a ea (omega arith) d)
            (λ items' d'. store-IsFilled context n items' (2 * i + 1) b eb lt d'))

-- A fresh block holds no item yet.
pub get_elem?-replicate :
    (n i : ℕ) (a item : Hash) → get_elem? (replicate n a) i ≡ some item → item ≡ a
get_elem?-replicate zero i a item e = cc
get_elem?-replicate (suc n) zero a item e = cc
get_elem?-replicate (suc n) (suc i) a item e = get_elem?-replicate n i a item e

pub fresh-IsFilled : (context : Context) (n : ℕ) → IsFilled context n (replicate n (replicate 32 0))
fresh-IsFilled context n = record {
  size = length-replicate n (replicate 32 0);
  agrees = λ i item e. inl (rw (get_elem?-replicate n i (replicate 32 0) item e) first_zero);
}
  where
    first_zero : get_or (word64s (replicate 32 0)) 0 0 ≡ 0
    first_zero = unfold word64s in refl

All-replicate : (n : ℕ) (a : Hash) → IsHash512 a → All IsHash512 (replicate n a)
All-replicate zero a h = tt
All-replicate (suc n) a h = (h, All-replicate n a h)

pub fresh-IsCache : (n : ℕ) → IsCache n (replicate n (replicate 16 0))
fresh-IsCache n = record {
  size = length-replicate n (replicate 16 0);
  items = All-replicate n (replicate 16 0) refl;
}

pub fill_loop-IsFilled :
    (context : Context) (n : ℕ)
    → IsContext context
    → 128 ≤ n
    → Returns (IsFilled context n) (for_range 64 0 (fill_l1 context) (replicate n (replicate 32 0)))
fill_loop-IsFilled context n c le =
    for_range-Returns (IsFilled context n) (fill_l1 context) 64
      (λ i items lt d. fill_l1-IsFilled context n i items c (omega arith) d) 64 0
      (replicate n (replicate 32 0)) (omega arith) (fresh-IsFilled context n)
