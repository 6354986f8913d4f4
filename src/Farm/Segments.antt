-- ===== src/Farm/Segments.antt =====
-- The segments of nonces that `setWork` of libethcore/Farm.cpp gives the miners.
use native.Mathlib.Nat.{mul-le-mul, le_refl}
use quai_gpu_miner_archive.EthashAux.{WorkPackage}
use quai_gpu_miner_archive.Managed.{get_global_epoch_context}
use quai_gpu_miner_archive.Miner.{
  call, kick_miner, void_work, Miner, set_epoch as set_miner_epoch, paused as miner_paused,
  set_work as set_miner_work,
}
use quai_gpu_miner_archive.Farm.{Farm}
use quai_gpu_miner_archive.Farm.Work.{
  epoch_context, deal, hand_out, set_work, set_epoch, same_epoch, shuffle,
}
use quai_gpu_miner_archive.Prelude.{
  ℕ, zero, suc, ◌+◌, ◌*◌, ◌^◌, ◌≤◌, ◌<◌, ◌≡◌, refl, sym, ap, ◌∙◌, subst, inl, inr, Bool, true,
  false, ◌&&◌, some, List, [], ◌∷◌, arith, ltb, ◌==◌, if◌then◌else◌, Bool-cases, if-both,
  some-injective, >>=-eq-some, Ensures, Ensures->>=, Ensures-at, Ensures-intro, length, get_elem?,
  get_elem?-some_lt, length-map, u64, ◌<<<◌,
}

set_work-running_eq :
    (wp : WorkPackage) (m : Miner)
    → miner_paused m ≡ false
    → set_miner_work wp m ≡ call kick_miner (record m { work = wp })
unfolding set_miner_work
set_work-running_eq wp m e = rw (set_miner_work, e) refl

set_work-paused_eq :
    (wp : WorkPackage) (m : Miner)
    → miner_paused m ≡ true
    → set_miner_work wp m ≡ call kick_miner (void_work m)
unfolding set_miner_work
set_work-paused_eq wp m e = rw (set_miner_work, e) refl

-- A miner that is not paused has the work it is given.
set_work-running :
    (wp : WorkPackage) (m m' : Miner)
    → set_miner_work wp m ≡ m'
    → miner_paused m' ≡ false
    → m'.work ≡ wp
unfolding miner_paused
set_work-running wp m m' h running = elim (Bool-cases (miner_paused m)) [
  | inl e ↦
      (let same = ap miner_paused (sym (set_work-paused_eq wp m e) ∙ h) in
        absurd (cc (same, e, running)))
  | inr e ↦ ap (λ (m : Miner). m.work) (sym h ∙ set_work-running_eq wp m e)
]

-- The start of each running miner's segment.
deal-start_nonce :
    (start_nonce width i : ℕ) (wp : WorkPackage) (ms : List Miner) (k : ℕ) (m : Miner)
    → get_elem? (deal start_nonce width i wp ms).1 k ≡ some m
    → miner_paused m ≡ false
    → m.work.start_nonce ≡ u64 (start_nonce + u64 ((i + k) <<< width))
unfolding deal
deal-start_nonce start_nonce width i wp [] k m h running = absurd (cc h)
deal-start_nonce start_nonce width i wp (x ∷ ms) zero m h running =
    let wp' = record wp { start_nonce = u64 (start_nonce + u64 (i <<< width)) } in
    subst (λ n. m.work.start_nonce ≡ u64 (start_nonce + u64 (n <<< width))) (omega arith)
      (ap (λ (wp : WorkPackage). wp.start_nonce)
        (set_work-running wp' x m (some-injective h) running))
deal-start_nonce start_nonce width i wp (x ∷ ms) (suc k) m h running =
    let wp' = record wp { start_nonce = u64 (start_nonce + u64 (i <<< width)) } in
    subst (λ n. m.work.start_nonce ≡ u64 (start_nonce + u64 (n <<< width))) (omega arith)
      (deal-start_nonce start_nonce width (i + 1) wp' ms k m h running)

-- Two segments of a power of two, at different places within 2^64 nonces.
segments_lem :
    (s i j n w d d' : ℕ)
    → i < j
    → j < n
    → n * w ≤ 2 ^ 64
    → d < w
    → d' < w
    → ¬ (u64 (u64 (s + u64 (i * w)) + d) ≡ u64 (u64 (s + u64 (j * w)) + d'))
segments_lem s i j n w d d' ij jn room di dj e =
    let a : (i + 1) * w ≤ j * w = mul-le-mul (omega arith) (le_refl w) in
    let b : (j + 1) * w ≤ n * w = mul-le-mul (omega arith) (le_refl w) in omega arith

length-deal :
    (start_nonce width i : ℕ) (wp : WorkPackage) (ms : List Miner)
    → length (deal start_nonce width i wp ms).1 ≡ length ms
unfolding deal
length-deal start_nonce width i wp [] = refl
length-deal start_nonce width i wp (m ∷ ms) = ap suc (length-deal start_nonce width (i + 1) _ ms)

-- A farm that has handed out work, from the start and with the width it chose.
record IsHandedOut (n : ℕ) (f : Farm) : Type 0 where
  pub start_nonce : ℕ
  pub size : length f.miners ≡ n
  pub starts :
      (k : ℕ) (m : Miner)
      → get_elem? f.miners k ≡ some m
      → miner_paused m ≡ false
      → m.work.start_nonce ≡ u64 (start_nonce + u64 (k <<< f.nonce_segment_width))

hand_out-IsHandedOut :
    (segment_width : ℕ → ℕ → ℕ) (wp : WorkPackage) (f : Farm)
    → IsHandedOut (length f.miners) (hand_out segment_width wp f)
unfolding hand_out
hand_out-IsHandedOut segment_width wp f =
    let start_nonce = if ltb 0 wp.ex_size_bytes then wp.start_nonce else f.nonce_scrambler in
    let width = (hand_out segment_width wp f).nonce_segment_width in
    record {
      start_nonce = start_nonce;
      size = length-deal start_nonce width 0 wp f.miners;
      starts = λ k m h running.
          subst (λ n. m.work.start_nonce ≡ u64 (start_nonce + u64 (n <<< width))) (omega arith)
            (deal-start_nonce start_nonce width 0 wp f.miners k m h running);
    }

module _ (segment_width : ℕ → ℕ → ℕ) (random : ℕ) (calloc : ℕ → Bool) (thread : ℕ)
    (wp : WorkPackage) (f : Farm) where
  set_epoch-miners :
      Ensures (λ (g : Farm). length g.miners ≡ length f.miners) (set_epoch calloc thread wp.epoch f)
  unfolding set_epoch
  set_epoch-miners =
      Ensures-intro (λ (g : Farm). length g.miners ≡ length f.miners) _
        (λ g h.
          let (e, _, h) = >>=-eq-some wp.epoch _ h in
          let (got, _, h) =
            >>=-eq-some (get_global_epoch_context calloc false thread e f.managed) _ h in
          let (context, _, h) = >>=-eq-some got.0 _ h in
          let (ec, _, h) = >>=-eq-some (epoch_context e context) _ h in
          Ensures-at (λ (g : Farm). length g.miners ≡ length f.miners) _ g
            (length-map (set_miner_epoch ec) f.miners) h)

  set_work-IsHandedOut :
      Ensures (IsHandedOut (length f.miners)) (set_work segment_width random calloc thread wp f)
  unfolding set_work shuffle
  set_work-IsHandedOut =
      let P = λ (g : Farm). length g.miners ≡ length f.miners in
      let changed = set_epoch calloc thread wp.epoch f in
      let same = same_epoch f.current_wp.epoch wp.epoch in
      Ensures->>= P (IsHandedOut (length f.miners)) (if same then some f else changed) _
        (if-both (Ensures P) same (some f) changed refl set_epoch-miners)
        (λ g k.
          let g' = record g { current_wp = wp } in
          let h =
            if g'.settings.ergodicity == 2 && (wp.ex_size_bytes == 0)
            then shuffle random g'
            else g' in
          subst (λ n. IsHandedOut n (hand_out segment_width wp h))
            (if-both P (g'.settings.ergodicity == 2 && (wp.ex_size_bytes == 0)) (shuffle random g')
              g' k k)
            (hand_out-IsHandedOut segment_width wp h))

-- After new work, no nonce belongs to two miners: as long as there is room in 64 bits for as many
-- segments as there are miners, of the width that the farm then has, the nonces that two miners at
-- different places count up to within their segments, in 64 bits, are different. It holds of miners
-- that are not paused, whether the start is the pool's or the farm's own.
pub set_work-disjoint :
    (segment_width : ℕ → ℕ → ℕ) (random : ℕ) (calloc : ℕ → Bool) (thread : ℕ) (wp : WorkPackage)
    (f f' : Farm)
    → set_work segment_width random calloc thread wp f ≡ some f'
    → length f.miners * 2 ^ f'.nonce_segment_width ≤ 2 ^ 64
    → (i j : ℕ) (m m' : Miner) → i < j
    → get_elem? f'.miners i ≡ some m
    → get_elem? f'.miners j ≡ some m'
    → miner_paused m ≡ false
    → miner_paused m' ≡ false
    → (d d' : ℕ) → d < 2 ^ f'.nonce_segment_width
    → d' < 2 ^ f'.nonce_segment_width
    → ¬ (u64 (m.work.start_nonce + d) ≡ u64 (m'.work.start_nonce + d'))
set_work-disjoint segment_width random calloc thread wp f f' h room i j m m' ij at_i at_j running
      running' d d' di dj e =
    let out =
      Ensures-at (IsHandedOut (length f.miners)) _ f'
        (set_work-IsHandedOut segment_width random calloc thread wp f) h in
    let jn = get_elem?-some_lt f'.miners j m' at_j in
    segments_lem out.start_nonce i j (length f.miners) (2 ^ f'.nonce_segment_width) d d' ij
      (omega (arith, jn, out.size)) room di dj
      (sym (ap (λ n. u64 (n + d)) (out.starts i m at_i running))
        ∙ e
        ∙ ap (λ n. u64 (n + d')) (out.starts j m' at_j running'))
