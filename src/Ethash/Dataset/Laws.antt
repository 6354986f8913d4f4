-- ===== src/Ethash/Dataset/Laws.antt =====
-- The dataset items of libethash/ethash.cpp that are computed in step, and single items.
use mathlib.Core.Path.{fun_ext}
use quai_gpu_miner_archive.Ethash.Hash.{Hash}
use quai_gpu_miner_archive.Ethash.Dataset.{
  Context, ItemState, item_state, update, update_two, update_four, final,
  calculate_dataset_item_512, calculate_dataset_item_1024, calculate_dataset_item_2048,
}
use quai_gpu_miner_archive.Prelude.{
  ℕ, ◌+◌, ◌*◌, ◌≡◌, refl, ap, ◌∙◌, Option, some, ◌++◌, arith, ◌>>=◌, >>=-assoc, pair, both,
  for_range, for_range-both,
}

update_two-both :
    (round : ℕ) (s : ItemState × ItemState)
    → update_two round s ≡ both (update round) (update round) s
unfolding update_two
update_two-both round (a, b) = refl

update_four-both :
    (round : ℕ) (s : (ItemState × ItemState) × (ItemState × ItemState))
    → update_four round s ≡ both (update_two round) (update_two round) s
unfolding update_four update_two
update_four-both round ((a, b), (c, d)) = simp >>=-assoc

loop_two :
    (n i : ℕ) (a b : ItemState)
    → for_range n i update_two (a, b)
      ≡ (for_range n i update a >>= λ x. for_range n i update b >>= λ y. some (x, y))
loop_two n i a b =
    ap
      (λ (body : ℕ → ItemState × ItemState → Option (ItemState × ItemState)).
        for_range n i body (a, b))
      (fun_ext λ j. fun_ext (update_two-both j))
    ∙ for_range-both update update n i a b

loop_four :
    (n i : ℕ) (a b c d : ItemState)
    → for_range n i update_four ((a, b), (c, d)) ≡ (
        for_range n i update_two (a, b) >>= λ x.
        for_range n i update_two (c, d) >>= λ y. some (x, y))
loop_four n i a b c d =
    ap
      (λ (body : ℕ
          → (ItemState × ItemState) × (ItemState × ItemState)
          → Option ((ItemState × ItemState) × (ItemState × ItemState))).
        for_range n i body ((a, b), (c, d)))
      (fun_ext λ j. fun_ext (update_four-both j))
    ∙ for_range-both update_two update_two n i (a, b) (c, d)

-- One item: its start, its loop and its end.
abbrev one_item : {A : Type 0} → Option A → (A → Option A) → (A → Hash) → Option Hash
one_item start loop end = start >>= λ a. loop a >>= λ x. some (end x)

two_items :
    {A : Type 0} (s0 s1 : Option A) (loop : A → Option A) (end : A → Hash)
    → (s0 >>= λ a. s1 >>= λ b. pair (loop a) (loop b) >>= λ p. some (end p.0 ++ end p.1))
      ≡ (one_item s0 loop end >>= λ h0. one_item s1 loop end >>= λ h1. some (h0 ++ h1))
two_items s0 s1 loop end = ground arith

four_items :
    {A : Type 0} (s0 s1 s2 s3 : Option A) (loop : A → Option A) (end : A → Hash)
    → (s0 >>= λ a. s1 >>= λ b. s2 >>= λ c. s3 >>= λ d.
        pair (pair (loop a) (loop b)) (pair (loop c) (loop d)) >>= λ p.
        some (end p.0.0 ++ end p.0.1 ++ end p.1.0 ++ end p.1.1))
      ≡ (one_item s0 loop end >>= λ h0. one_item s1 loop end >>= λ h1.
          one_item s2 loop end >>= λ h2. one_item s3 loop end >>= λ h3. some (h0 ++ h1 ++ h2 ++ h3))
four_items s0 s1 s2 s3 loop end = ground arith

-- The two items that are computed in step are the 512-bit items 2 i and 2 i + 1, one behind the other,
-- and the computation fails exactly where one of theirs does.
pub calculate_dataset_item_1024-512 :
    (context : Context) (index : ℕ)
    → calculate_dataset_item_1024 context index ≡ (
        calculate_dataset_item_512 context (index * 2) >>= λ h0.
        calculate_dataset_item_512 context (index * 2 + 1) >>= λ h1. some (h0 ++ h1))
unfolding calculate_dataset_item_1024 calculate_dataset_item_512
calculate_dataset_item_1024-512 context index = simp loop_two (
    two_items (item_state context (index * 2)) (item_state context (index * 2 + 1))
      (for_range 256 0 update) final)

-- The four items that are computed in step are the 512-bit items 4 i to 4 i + 3, in order.
pub calculate_dataset_item_2048-512 :
    (context : Context) (index : ℕ)
    → calculate_dataset_item_2048 context index ≡ (
        calculate_dataset_item_512 context (index * 4) >>= λ h0.
        calculate_dataset_item_512 context (index * 4 + 1) >>= λ h1.
        calculate_dataset_item_512 context (index * 4 + 2) >>= λ h2.
        calculate_dataset_item_512 context (index * 4 + 3) >>= λ h3. some (h0 ++ h1 ++ h2 ++ h3))
unfolding calculate_dataset_item_2048 calculate_dataset_item_512
calculate_dataset_item_2048-512 context index =
    simp (loop_four, loop_two)
      (four_items (item_state context (index * 4)) (item_state context (index * 4 + 1))
        (item_state context (index * 4 + 2)) (item_state context (index * 4 + 3))
        (for_range 256 0 update) final)
