-- ===== src/Ethash/Cache/Laws.antt =====
-- Array accesses of generic::build_light_cache of libethash/ethash.cpp.
use quai_gpu_miner_archive.Ethash.Hash.{Hash, bytes, IsHash512}
use quai_gpu_miner_archive.Ethash.Cache.{store, fill_item, mix_item, generic_build_light_cache}
use quai_gpu_miner_archive.Prelude.{
  ℕ, ◌+◌, ◌-◌, ◌%◌, ◌^◌, ◌<◌, ◌≡◌, ◌∙◌, some, List, arith, for_range, Returns, Returns->>=,
  get_elem?-Returns, for_range-Returns, length, get_elem?, get_or, set, length-set, All, All-set,
  u32,
}

-- An array of `n` hash512 values.
pub record IsCache (n : ℕ) (cache : List Hash) : Type 0 where
  pub size : length cache ≡ n
  pub items : All IsHash512 cache

pub item-IsHash512 :
    (n : ℕ) (cache : List Hash) (i : ℕ)
    → i < n
    → IsCache n cache
    → Returns IsHash512 (get_elem? cache i)
item-IsHash512 n cache i lt c = get_elem?-Returns IsHash512 cache i c.items (omega (arith, c.size))

store-IsCache :
    (n : ℕ) (cache : List Hash) (i : ℕ) (item : Hash)
    → i < n
    → IsHash512 item
    → IsCache n cache
    → Returns (IsCache n) (store cache i item)
store-IsCache n cache i item lt h c =
    Returns->>= IsHash512 (IsCache n) (get_elem? cache i) (λ old. some (set cache i item))
      (item-IsHash512 n cache i lt c)
      (λ old _. record {
        size = length-set cache i item ∙ c.size;
        items = All-set IsHash512 cache i item c.items h;
      })

module _ (hash_fn : List ℕ → Hash) (sized : (input : List ℕ) → IsHash512 (hash_fn input))
    (n : ℕ) where
  fill_item-IsCache :
      (i : ℕ) (s : Hash × List Hash)
      → i < n
      → IsCache n s.1
      → Returns (λ t. IsCache n t.1) (fill_item hash_fn i s)
  unfolding fill_item
  fill_item-IsCache i (item, cache) lt c =
      Returns->>= (IsCache n) (λ t. IsCache n t.1) (store cache i (hash_fn (bytes item))) _
        (store-IsCache n cache i _ lt (sized (bytes item)) c) (λ cache' c'. c')

  mix_item-IsCache :
      (i : ℕ) (cache : List Hash)
      → n < 2 ^ 32
      → i < n
      → IsCache n cache
      → Returns (IsCache n) (mix_item hash_fn n i cache)
  unfolding mix_item
  mix_item-IsCache i cache small lt c =
      Returns->>= IsHash512 (IsCache n) (get_elem? cache i) _ (item-IsHash512 n cache i lt c)
        λ item h.
          Returns->>= IsHash512 (IsCache n) (get_elem? cache (get_or item 0 0 % u32 n)) _
            (item-IsHash512 n cache _ (omega arith) c)
            λ x_v h_v.
              Returns->>= IsHash512 (IsCache n) (get_elem? cache (u32 (n + i - 1) % u32 n)) _
                (item-IsHash512 n cache _ (omega arith) c)
                λ x_w h_w. store-IsCache n cache i _ lt (sized _) c

  -- With a hash function that gives 64 bytes, from an array of `n` 64-byte items, `n` from 1 to 2
  -- ^ 32 - 1, building the light cache accesses no item outside the array and leaves an array of
  -- `n` 64-byte items.
  pub generic_build_light_cache-IsCache :
      (cache : List Hash) (seed : Hash)
      → 0 < n
      → n < 2 ^ 32
      → IsCache n cache
      → Returns (IsCache n) (generic_build_light_cache hash_fn cache n seed)
  unfolding generic_build_light_cache
  generic_build_light_cache-IsCache cache seed pos small c =
      Returns->>= (IsCache n) (IsCache n) (store cache 0 (hash_fn (bytes seed))) _
        (store-IsCache n cache 0 _ pos (sized _) c)
        λ cache1 c1.
          Returns->>= (λ t. IsCache n t.1) (IsCache n)
            (for_range (n - 1) 1 (fill_item hash_fn) (hash_fn (bytes seed), cache1)) _
            (for_range-Returns (λ t. IsCache n t.1) (fill_item hash_fn) n fill_item-IsCache (n - 1)
              1 _ (omega arith) c1)
            λ t c2. mixed t.1 c2
    where
      mixed :
          (cache2 : List Hash)
          → IsCache n cache2
          → Returns (IsCache n) (for_range 3 0 (λ q. for_range n 0 (mix_item hash_fn n)) cache2)
      mixed cache2 c2 =
          for_range-Returns (IsCache n) _ 3
            (λ q s q_lt h.
              for_range-Returns (IsCache n) (mix_item hash_fn n) n
                (λ i cache' lt c'. mix_item-IsCache i cache' small lt c') n 0 s (omega arith) h)
            3 0 cache2 (omega arith) c2
