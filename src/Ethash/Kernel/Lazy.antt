-- ===== src/Ethash/Kernel/Lazy.antt =====
-- The lazily filled dataset of libethash/ethash.cpp and the light cache.
use native.Mathlib.Decide.{ℕ_discrete}
use quai_gpu_miner_archive.Ethash.Hash.{Hash, word64s, fnv1}
use quai_gpu_miner_archive.Ethash.Dataset.{Context, calculate_dataset_item_1024}
use quai_gpu_miner_archive.Ethash.Dataset.Sizes.{IsContext, calculate_dataset_item_1024-IsHash1024}
use quai_gpu_miner_archive.Ethash.Kernel.{
  HashResult, access_index, access, compress, hash_kernel, hash_with, hash_seed, hash_final,
  light_lookup, hash, lazy_lookup, hash_full,
}
use quai_gpu_miner_archive.Prelude.{
  ℕ, ◌^◌, ◌<◌, ◌≡◌, refl, sym, ap, ◌∙◌, subst, ◌⊎◌, inl, inr, true, false, Option, some, List, ◌++◌,
  arith, ◌==◌, Bool-cases, for_range, Returns-eq_some, for_range-refines, length, get_elem?, get_or,
  set, length-set, get_elem?-set_self, get_elem?-set_ne, get_elem?-lt,
}

-- A stored item is not computed yet, or right.
abbrev pub Agrees : Context → ℕ → Hash → Type 0
Agrees context i item =
    (get_or (word64s item) 0 0 ≡ 0) ⊎ (calculate_dataset_item_1024 context i ≡ some item)

-- `n` items, none of them wrong.
pub record IsFilled (context : Context) (n : ℕ) (items : List Hash) : Type 0 where
  pub size : length items ≡ n
  pub agrees : (i : ℕ) (item : Hash) → get_elem? items i ≡ some item → Agrees context i item

abbrev pub IsDataset : Context → List Hash → Type 0
IsDataset context full_dataset = IsFilled context context.full_dataset_num_items full_dataset

pub set-IsFilled :
    (context : Context) (n : ℕ) (items : List Hash) (i : ℕ) (item : Hash)
    → calculate_dataset_item_1024 context i ≡ some item
    → i < length items
    → IsFilled context n items
    → IsFilled context n (set items i item)
set-IsFilled context n items i item right lt d = record {
  size = length-set items i item ∙ d.size;
  agrees = λ j other e. elim (ℕ_discrete i j) [
    | yes same ↦ inr (
        ap (calculate_dataset_item_1024 context) (sym same)
        ∙ right
        ∙ sym (get_elem?-set_self items i item lt)
        ∙ ap (get_elem? (set items i item)) same
        ∙ e)
    | no ne ↦ d.agrees j other (sym (get_elem?-set_ne items i j item ne) ∙ e)
  ];
}

module _ (context : Context) (full_dataset : List Hash) (i : ℕ) (stored : Hash)
    (e : get_elem? full_dataset i ≡ some stored) where
  lazy_lookup-filled :
      (get_or (word64s stored) 0 0 == 0) ≡ false
      → lazy_lookup context full_dataset i ≡ some (stored, full_dataset)
  unfolding lazy_lookup
  lazy_lookup-filled filled = rw (e, filled)

  lazy_lookup-empty :
      {item : Hash}
      → (get_or (word64s stored) 0 0 == 0) ≡ true
      → calculate_dataset_item_1024 context i ≡ some item
      → lazy_lookup context full_dataset i ≡ some (item, set full_dataset i item)
  unfolding lazy_lookup
  lazy_lookup-empty empty right = rw (e, empty, right)

-- What a lookup gives: the item that the light cache gives, and a dataset that is still right.
abbrev LooksUp : Context → List Hash → ℕ → Type 0
LooksUp context full_dataset i =
    (item : Hash) × (full_dataset' : List Hash) × (lazy_lookup context full_dataset i
      ≡ some (item, full_dataset'))
    × (calculate_dataset_item_1024 context i ≡ some item)
    × IsDataset context full_dataset'

lazy_lookup_stored :
    (context : Context) (full_dataset : List Hash) (i : ℕ) (stored item : Hash)
    → i < length full_dataset
    → IsDataset context full_dataset
    → get_elem? full_dataset i ≡ some stored
    → calculate_dataset_item_1024 context i ≡ some item
    → LooksUp context full_dataset i
lazy_lookup_stored context full_dataset i stored item lt d e right =
    elim (Bool-cases (get_or (word64s stored) 0 0 == 0)) [
      | inl empty ↦ (
        item,
        set full_dataset i item,
        lazy_lookup-empty context full_dataset i stored e empty right,
        right,
        set-IsFilled context _ full_dataset i item right lt d,
      )
      | inr filled ↦ (
        stored,
        full_dataset,
        lazy_lookup-filled context full_dataset i stored e filled,
        agreed (d.agrees i stored e) filled,
        d,
      )
    ]
  where
    agreed :
        Agrees context i stored
        → (get_or (word64s stored) 0 0 == 0) ≡ false
        → calculate_dataset_item_1024 context i ≡ some stored
    agreed (inl zero_word) filled = ground arith
    agreed (inr known) filled = known

lazy_lookup-light :
    (context : Context) (full_dataset : List Hash) (i : ℕ)
    → IsContext context
    → i < length full_dataset
    → IsDataset context full_dataset
    → LooksUp context full_dataset i
lazy_lookup-light context full_dataset i c lt d =
    let (stored, e) = get_elem?-lt full_dataset i lt in
    let (item, right, _) =
      Returns-eq_some _ _ (calculate_dataset_item_1024-IsHash1024 context c i) in
    lazy_lookup_stored context full_dataset i stored item lt d e right

-- Two runs give one value, and leave a dataset that is right.
abbrev Refines : {A : Type 0} → Context → Option (A × List Hash) → Option (A × Unit {0}) → Type 0
Refines {A} context m n =
    (a : A) × (full_dataset : List Hash) × (m ≡ some (a, full_dataset))
    × (n ≡ some (a, tt))
    × IsDataset context full_dataset

module _ {D : Type 0} (lookup : D → ℕ → Option (Hash × D)) (context : Context) where
  access-some :
      (seed_init i : ℕ) (mix item : Hash) (d d' : D)
      → lookup d (access_index context seed_init i mix) ≡ some (item, d')
      → access lookup context seed_init i (mix, d) ≡ some (fnv1 mix item, d')
  unfolding access
  access-some seed_init i mix item d d' e = rw e

  hash_kernel-some :
      (seed mix : Hash) (d d' : D)
      → for_range 64 0 (access lookup context (get_or seed 0 0)) (seed ++ seed, d) ≡ some (mix, d')
      → hash_kernel lookup context seed d ≡ some (compress mix, d')
  unfolding hash_kernel
  hash_kernel-some seed mix d d' e = rw e

  hash_with-some :
      (header_hash mix_hash : Hash) (nonce : ℕ) (d d' : D)
      → hash_kernel lookup context (hash_seed header_hash nonce) d ≡ some (mix_hash, d')
      → hash_with lookup context header_hash nonce d
        ≡ some (
          record {
            final_hash = hash_final (hash_seed header_hash nonce) mix_hash;
            mix_hash = mix_hash;
          },
          d',
        )
  unfolding hash_with
  hash_with-some header_hash mix_hash nonce d d' e = rw e

light_lookup-some :
    (context : Context) (i : ℕ) (item : Hash)
    → calculate_dataset_item_1024 context i ≡ some item
    → light_lookup context tt i ≡ some (item, tt)
unfolding light_lookup
light_lookup-some context i item e = rw e

module _ (context : Context) (c : IsContext context) (pos : 0 < context.full_dataset_num_items)
    (fits : context.full_dataset_num_items < 2 ^ 32) where
  access_index-lt :
      (seed_init i : ℕ) (mix : Hash)
      → access_index context seed_init i mix < context.full_dataset_num_items
  unfolding access_index
  access_index-lt seed_init i mix = omega arith

  access-Refines :
      (seed_init i : ℕ) (mix : Hash) (full_dataset : List Hash)
      → IsDataset context full_dataset
      → Refines context
          (access (lazy_lookup context) context seed_init i (mix, full_dataset))
          (access (light_lookup context) context seed_init i (mix, tt))
  access-Refines seed_init i mix full_dataset d =
      let index = access_index context seed_init i mix in
      let (item, full_dataset', e, right, d') =
        lazy_lookup-light context full_dataset index c
          (subst (λ n. index < n) (sym d.size) (access_index-lt seed_init i mix)) d in
      (
        fnv1 mix item,
        full_dataset',
        access-some (lazy_lookup context) context seed_init i mix item full_dataset full_dataset' e,
        access-some (light_lookup context) context seed_init i mix item tt tt
            (light_lookup-some context index item right),
        d',
      )

  access_in_step :
      (seed_init i : ℕ) (s : Hash × List Hash) (t : Hash × Unit {0})
      → (s.0 ≡ t.0) × IsDataset context s.1
      → (s' : Hash × List Hash) × (t' : Hash × Unit {0}) × (access
            (lazy_lookup context)
            context
            seed_init
            i
            s
          ≡ some s')
        × (access (light_lookup context) context seed_init i t ≡ some t')
        × ((s'.0 ≡ t'.0) × IsDataset context s'.1)
  access_in_step seed_init i (mix, full_dataset) (mix', tt) (same, d) =
      let (next, full_dataset', e, e', d') = access-Refines seed_init i mix full_dataset d in
      ((next, full_dataset'), (next, tt), e, rw (← same) e', (refl, d'))

  kernel-Refines :
      (seed : Hash) (full_dataset : List Hash)
      → IsDataset context full_dataset
      → Refines context
          (hash_kernel (lazy_lookup context) context seed full_dataset)
          (hash_kernel (light_lookup context) context seed tt)
  kernel-Refines seed full_dataset d = finish (
      for_range-refines (λ s t. (s.0 ≡ t.0) × IsDataset context s.1)
        (access (lazy_lookup context) context (get_or seed 0 0))
        (access (light_lookup context) context (get_or seed 0 0)) (access_in_step (get_or seed 0 0))
        64 0 (seed ++ seed, full_dataset) (seed ++ seed, tt) (refl, d))
    where
      finish :
          (s' : Hash × List Hash) × (t' : Hash × Unit {0}) × (for_range 64 0
                (access (lazy_lookup context) context (get_or seed 0 0))
                (seed ++ seed, full_dataset)
              ≡ some s')
            × (for_range 64 0
                  (access (light_lookup context) context (get_or seed 0 0))
                  (seed ++ seed, tt)
                ≡ some t')
            × ((s'.0 ≡ t'.0) × IsDataset context s'.1)
          → Refines context
              (hash_kernel (lazy_lookup context) context seed full_dataset)
              (hash_kernel (light_lookup context) context seed tt)
      finish ((mix, full_dataset'), (mix', tt), e, e', (same, d')) = (
        compress mix,
        full_dataset',
        hash_kernel-some (lazy_lookup context) context seed mix full_dataset full_dataset' e,
        hash_kernel-some (light_lookup context) context seed mix tt tt (rw same e'),
        d',
      )

  -- For a context whose light cache has the stated number of items, at least one, and whose
  -- dataset has from 1 to 2 ^ 32 - 1 items: from a dataset of that size in which every item is
  -- either still zero in its first word or right, the full context computes a result; the light
  -- context computes the same; and the items that were stored on the way leave the dataset right.
  pub hash_full-hash :
      (header_hash : Hash) (nonce : ℕ) (full_dataset : List Hash)
      → IsDataset context full_dataset
      → (r : HashResult) × (full_dataset' : List Hash) × (hash_full context header_hash nonce
            full_dataset
          ≡ some (r, full_dataset'))
        × (hash context header_hash nonce ≡ some r)
        × IsDataset context full_dataset'
  unfolding hash_full hash
  hash_full-hash header_hash nonce full_dataset d =
      let (mix_hash, full_dataset', e, e', d') =
        kernel-Refines (hash_seed header_hash nonce) full_dataset d in
      let light =
        hash_with-some (light_lookup context) context header_hash mix_hash nonce tt tt e' in
      (
        record {
          final_hash = hash_final (hash_seed header_hash nonce) mix_hash;
          mix_hash = mix_hash;
        },
        full_dataset',
        hash_with-some (lazy_lookup context) context header_hash mix_hash nonce full_dataset
            full_dataset' e,
        rw light,
        d',
      )
