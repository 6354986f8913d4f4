-- ===== src/Miner/Loading.antt =====
-- The order in which `initEpoch` of libethcore/Miner.cpp lets the miners load their datasets when they
-- are to do so one after the other.
use quai_gpu_miner_archive.Miner.{DagLoad, set_dag_load_info, may_load, advance, init_epoch}
use quai_gpu_miner_archive.Prelude.{
  ℕ, ◌+◌, ◌≤◌, ◌<◌, ◌≡◌, refl, sym, ap, ◌∙◌, subst, ◌⊎◌, inl, inr, Bool, true, false, ◌||◌, arith,
  ltb, ◌==◌, if◌then◌else◌, ==_iff,
}

-- The loads of an epoch so far: `k` of them, one for each of the miners in `done`, the last first. Each
-- is of a miner that has not loaded yet, leaves its wait and is not told to stop.
pub data Loads (n : ℕ) : ℕ → (ℕ → Bool) → DagLoad → Type 0 where
  set_up : Loads n 0 (λ i. false) (set_dag_load_info 1 n)
  loads :
      {k : ℕ} {done : ℕ → Bool} {s : DagLoad} (i : ℕ)
      → Loads n k done s
      → i < n
      → done i ≡ false
      → may_load i s ≡ true
      → Loads n (k + 1) (λ j. (j == i) || done j) (init_epoch false i s)

-- What the loads leave: those below `k` have loaded and the others have not, and the turn is that of
-- the miner at `k`, or it is back at the first when all have loaded.
record IsInOrder (n k : ℕ) (done : ℕ → Bool) (s : DagLoad) : Type 0 where
  pub sequential : s.dag_load_mode ≡ 1
  pub number : s.miners_count ≡ n
  pub first : (j : ℕ) → done j ≡ ltb j k
  pub at_most : k ≤ n
  pub turn : s.dag_load_index ≡ (if k == n then 0 else k)

load-IsInOrder :
    (n k i : ℕ) (done : ℕ → Bool) (s : DagLoad)
    → IsInOrder n k done s
    → i < n
    → done i ≡ false
    → may_load i s ≡ true
    → i ≡ k
unfolding may_load
load-IsInOrder n k i done s o lt fresh may =
    ground (arith, o.sequential, o.first i, o.turn, o.at_most)

next_lem : (j k : ℕ) (b : Bool) → b ≡ ltb j k → ((j == k) || b) ≡ ltb j (k + 1)
next_lem j k b e = ground arith

next_or_last : (k n : ℕ) → k ≤ n → (k < n) ⊎ (k ≡ n)
next_or_last k n le = ground arith

advance-IsInOrder :
    (n k : ℕ) (done : ℕ → Bool) (s : DagLoad)
    → IsInOrder n k done s
    → k < n
    → IsInOrder n (k + 1) (λ j. (j == k) || done j) (advance k s)
unfolding advance
advance-IsInOrder n k done s o lt =
    let mode : (s.dag_load_mode == 1) ≡ true = (==_iff s.dag_load_mode 1).1 o.sequential in
    subst (IsInOrder n (k + 1) (λ j. (j == k) || done j))
      (sym (
        ap
          (λ b.
            if b
            then record s { dag_load_index = if s.miners_count == k + 1 then 0 else k + 1 }
            else s)
          mode))
      (record {
        sequential = o.sequential;
        number = o.number;
        first = λ j. next_lem j k (done j) (o.first j);
        at_most = omega arith;
        turn = ground (arith, o.number);
      })

init_epoch-false : (i : ℕ) (s : DagLoad) → init_epoch false i s ≡ advance i s
unfolding init_epoch
init_epoch-false i s = ground arith

init_epoch-true : (i : ℕ) (s : DagLoad) → s.dag_load_mode ≡ 1 → init_epoch true i s ≡ s
unfolding init_epoch
init_epoch-true i s mode = ground arith

Loads-IsInOrder :
    (n k : ℕ) (done : ℕ → Bool) (s : DagLoad) → Loads n k done s → IsInOrder n k done s
unfolding set_dag_load_info
Loads-IsInOrder n _ _ _ set_up = record {
  sequential = refl;
  number = refl;
  first = λ j. ground arith;
  at_most = omega arith;
  turn = ground arith;
}
Loads-IsInOrder n _ _ _ (loads {k} {done} {s} i h lt fresh may) =
    let o = Loads-IsInOrder n k done s h in
    let e = load-IsInOrder n k i done s o lt fresh may in
    subst (λ i. IsInOrder n (k + 1) (λ j. (j == i) || done j) (init_epoch false i s)) (sym e)
      (subst (IsInOrder n (k + 1) (λ j. (j == k) || done j)) (sym (init_epoch-false k s))
        (advance-IsInOrder n k done s o (omega (arith, lt, e))))

-- While no miner is told to stop, the loading of datasets one after the other does not get stuck.
-- Whatever loads there have been in an epoch, each of a miner that had not loaded yet, was let through
-- and was not told to stop: while some miner has not loaded there is one that is let through and has not
-- loaded, the next in the order of their indices, and no other; and when all have loaded the turn is back
-- at the first. But if the next one is told to stop when it is let through, the turn stays at it, and the
-- miners after it are not let through.
pub Loads_lem :
    (n k : ℕ) (done : ℕ → Bool) (s : DagLoad)
    → Loads n k done s
    → ((k < n)
        × (may_load k s ≡ true)
        × (done k ≡ false)
        × ((i : ℕ) → i < n → done i ≡ false → may_load i s ≡ true → i ≡ k)
        × ((i : ℕ) → k < i → may_load i (init_epoch true k s) ≡ false))
      ⊎ ((k ≡ n) × ((i : ℕ) → i < n → done i ≡ true) × (s.dag_load_index ≡ 0))
unfolding may_load
Loads_lem n k done s h =
    let o = Loads-IsInOrder n k done s h in
    elim (next_or_last k n o.at_most) [
      | inl lt ↦ inl (
        lt,
        ground (arith, o.turn),
        o.first k ∙ ground arith,
        λ i lt' fresh may. load-IsInOrder n k i done s o lt' fresh may,
        λ i behind. rw (init_epoch-true k s o.sequential) (ground (arith, o.turn, o.sequential)),
      )
      | inr e ↦ inr (e, λ i lt. o.first i ∙ ground arith, o.turn ∙ ground arith)
    ]
