-- ===== src/Progpow/Kernel/Lazy.antt =====
-- The lazily filled dataset of libethash/progpow.cpp and the light cache.
use quai_gpu_miner_archive.Ethash.Hash.{Hash, word64s}
use quai_gpu_miner_archive.Ethash.Dataset.{Context, calculate_dataset_item_2048}
use quai_gpu_miner_archive.Ethash.Context.{store_2048}
use quai_gpu_miner_archive.Ethash.Context.Filling.{drop-eq}
use quai_gpu_miner_archive.Ethash.Context.Pairs.{
  IsPaired, set_pair, store_2048-some, set_pair-IsPairs, calculate_dataset_item_2048-halves,
}
use quai_gpu_miner_archive.Ethash.Kernel.{HashResult}
use quai_gpu_miner_archive.Progpow.Kernel.{hash, lazy_lookup, hash_full}
use quai_gpu_miner_archive.Progpow.Kernel.Agreement.{IsProgpowContext, Agrees, hash_with-Agrees}
use quai_gpu_miner_archive.Prelude.{
  ℕ, ◌+◌, ◌*◌, ◌<◌, ◌≡◌, sym, ap, ◌∙◌, ◌≢◌, inl, inr, true, false, some, List, ◌++◌, arith, ◌==◌,
  Bool-cases, ne→==, length, get_elem?, get_or, drop, replicate, get_elem?-lt,
}

module _ (context : Context) (p : IsProgpowContext context) where
  lazy_lookup-filled :
      (items : List Hash) (i : ℕ) (a b : Hash)
      → get_elem? items (2 * i) ≡ some a
      → get_elem? items (2 * i + 1) ≡ some b
      → (get_or (word64s a) 0 0 == 0) ≡ false
      → lazy_lookup context items i ≡ some (a ++ b, items)
  unfolding lazy_lookup
  lazy_lookup-filled items i a b e e' filled = rw (e, e', filled)

  lazy_lookup-empty :
      (items stored : List Hash) (i : ℕ) (a b item : Hash)
      → get_elem? items (2 * i) ≡ some a
      → get_elem? items (2 * i + 1) ≡ some b
      → (get_or (word64s a) 0 0 == 0) ≡ true
      → calculate_dataset_item_2048 context i ≡ some item
      → store_2048 items i item ≡ some stored
      → lazy_lookup context items i ≡ some (item, stored)
  unfolding lazy_lookup
  lazy_lookup-empty items stored i a b item e e' empty right put = rw (e, e', empty, right, put)

  lazy_lookup-Agrees : Agrees context p (IsPaired context) (lazy_lookup context)
  lazy_lookup-Agrees items i d lt =
      let (a, e) = get_elem?-lt items (2 * i) (omega (arith, d.size)) in
      let (b, e') = get_elem?-lt items (2 * i + 1) (omega (arith, d.size)) in
      let (a', b', right, sized, sized') = calculate_dataset_item_2048-halves context p.fit i in
      let in_range : 2 * i + 1 < length items = omega (arith, d.size) in
      elim (Bool-cases (get_or (word64s a) 0 0 == 0)) [
        | inl empty ↦ (
          a' ++ b',
          set_pair items i a' b',
          lazy_lookup-empty items (set_pair items i a' b') i a b (a' ++ b') e e' empty right
              (store_2048-some items i a' b' in_range sized),
          right,
          set_pair-IsPairs context context.full_dataset_num_items items i a' b' d in_range sized
              sized' right,
        )
        | inr filled ↦ (
          a ++ b,
          items,
          lazy_lookup-filled items i a b e e' filled,
          elim (d.agrees i a b e e') [ inl empty ↦ absurd (ground arith) | inr r ↦ r ],
          d,
        )
      ]

  -- For a context with a light cache, an L1 cache of 4096 words and a dataset of 2 to 2 ^ 32 - 1
  -- items: from a dataset in which the first half of every 256-byte item is either still zero in its
  -- first word, or both halves are right, the full context computes a ProgPoW hash without an access
  -- outside an array; the light context computes the same; and the items that were stored on the way
  -- leave the dataset so.
  pub progpow_hash_full-hash :
      (block_number : ℕ) (header_hash : Hash) (nonce : ℕ) (full_dataset : List Hash)
      → IsPaired context full_dataset
      → (r : HashResult) × (full_dataset' : List Hash) × (hash_full context block_number header_hash
            nonce full_dataset
          ≡ some (r, full_dataset'))
        × (hash context block_number header_hash nonce ≡ some r)
        × IsPaired context full_dataset'
  unfolding hash_full
  progpow_hash_full-hash block_number header_hash nonce full_dataset d =
      hash_with-Agrees context p (IsPaired context) (lazy_lookup context) lazy_lookup-Agrees
        block_number header_hash nonce full_dataset d

-- Where the first half of a pair is right, 32 words long and not zero in its first word, and the second
-- half is still zero, as Ethash leaves them when it has read the first half only, the lookup of the
-- 256-byte item takes the pair as it stands. The item that it gives is wrong if the right second half
-- is not zero.
pub lazy_lookup_half :
    (context : Context) (full_dataset : List Hash) (i : ℕ) (a b : Hash)
    → get_elem? full_dataset (2 * i) ≡ some a
    → get_elem? full_dataset (2 * i + 1) ≡ some (replicate 32 0)
    → length a ≡ 32
    → get_or (word64s a) 0 0 ≢ 0
    → calculate_dataset_item_2048 context i ≡ some (a ++ b)
    → b ≢ replicate 32 0
    → (item : Hash) × (lazy_lookup context full_dataset i ≡ some (item, full_dataset))
      × (calculate_dataset_item_2048 context i ≢ some item)
unfolding lazy_lookup
lazy_lookup_half context full_dataset i a b e e' sized ne right other = (
  a ++ replicate 32 0,
  rw (e, e', ne→== _ 0 ne),
  λ same.
      let halves : a ++ b ≡ a ++ replicate 32 0 = cc (sym right ∙ same) in
      other
        (sym (drop-eq 32 a b sized) ∙ ap (drop 32) halves ∙ drop-eq 32 a (replicate 32 0) sized),
)
