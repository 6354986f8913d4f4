-- ===== src/Farm/Working.antt =====
-- `setWork` and `submitProofAsync` of libethcore/Farm.cpp keep the invariant of the farm.
use quai_gpu_miner_archive.EthashAux.{WorkPackage, Solution, h256_greater, eval}
use quai_gpu_miner_archive.Managed.{get_global_epoch_context}
use quai_gpu_miner_archive.Miner.{Miner, set_epoch as set_miner_epoch}
use quai_gpu_miner_archive.Miner.Pauses.{set_work-IsPlaced, set_epoch-IsPlaced}
use quai_gpu_miner_archive.Farm.{Farm, Outcome, account_solution, failed}
use quai_gpu_miner_archive.Farm.Work.{
  shuffle, set_epoch, deal, hand_out, epoch_context, set_work, same_epoch,
}
use quai_gpu_miner_archive.Farm.Proofs.{submit_proof_async, on_solution_found}
use quai_gpu_miner_archive.Farm.Places.{ArePlaced}
use quai_gpu_miner_archive.Prelude.{
  ℕ, suc, ◌+◌, ◌<◌, ◌≡◌, refl, ap, Bool, false, ◌&&◌, Option, none, some, List, [], ◌∷◌, arith,
  ◌==◌, if◌then◌else◌, if-both, >>=-eq-some, Ensures, Ensures->>=, Ensures-at, Ensures-intro,
  length, u64, ◌<<<◌,
}
use quai_gpu_miner_archive.Farm.Sound.{IsSound, map-IsSound, account_solution-IsSound}

-- The segments are dealt out to as many miners as there were.
deal-ArePlaced :
    (start_nonce width i : ℕ) (wp : WorkPackage) (ms : List Miner)
    → ArePlaced i ms
    → ArePlaced i (deal start_nonce width i wp ms).1
      × (length (deal start_nonce width i wp ms).1 ≡ length ms)
unfolding deal
deal-ArePlaced start_nonce width i wp [] h = (tt, refl)
deal-ArePlaced start_nonce width i wp (m ∷ ms) h =
    let wp' = record wp { start_nonce = u64 (start_nonce + u64 (i <<< width)) } in
    let rest = deal-ArePlaced start_nonce width (i + 1) wp' ms h.1 in
    ((set_work-IsPlaced i m h.0 wp', rest.0), ap suc rest.1)

pub hand_out-IsSound :
    (segment_width : ℕ → ℕ → ℕ) (wp : WorkPackage) (f : Farm)
    → IsSound f
    → IsSound (hand_out segment_width wp f)
unfolding hand_out
hand_out-IsSound segment_width wp f s =
    let dealt = deal-ArePlaced _ _ 0 wp f.miners s.places in
    record {
      places = dealt.0;
      accounts = omega (arith, dealt.1, s.accounts);
      balanced = s.balanced;
    }

module _ (calloc : ℕ → Bool) (thread : ℕ) where
  pub set_epoch-IsSound :
      (epoch : Option ℕ) (f : Farm) → IsSound f → Ensures IsSound (set_epoch calloc thread epoch f)
  unfolding set_epoch
  set_epoch-IsSound epoch f s = Ensures-intro IsSound (set_epoch calloc thread epoch f) (λ f' h.
      let (e, _, h) = >>=-eq-some epoch _ h in
      let (got, _, h) =
        >>=-eq-some (get_global_epoch_context calloc false thread e f.managed) _ h in
      let (context, _, h) = >>=-eq-some got.0 _ h in
      let (ec, _, h) = >>=-eq-some (epoch_context e context) _ h in
      let changed = map-IsSound f s (set_miner_epoch ec) (λ i m p. set_epoch-IsPlaced i m p ec) in
      Ensures-at IsSound _ f'
        (record { places = changed.places; accounts = changed.accounts; balanced = s.balanced }) h)

  pub set_work-IsSound :
      (segment_width : ℕ → ℕ → ℕ) (random : ℕ) (wp : WorkPackage) (f : Farm)
      → IsSound f
      → Ensures IsSound (set_work segment_width random calloc thread wp f)
  unfolding set_work shuffle
  set_work-IsSound segment_width random wp f s =
      let changed = set_epoch calloc thread wp.epoch f in
      Ensures->>= IsSound IsSound
        (if same_epoch f.current_wp.epoch wp.epoch then some f else changed) _
        (if-both (Ensures IsSound) (same_epoch f.current_wp.epoch wp.epoch) (some f) changed s
          (set_epoch-IsSound wp.epoch f s))
        (λ g k.
          let g' = record g { current_wp = wp } in
          let h : IsSound g' = record {
            places = k.places;
            accounts = k.accounts;
            balanced = k.balanced;
          } in
          let h' : IsSound (shuffle random g') = record {
            places = k.places;
            accounts = k.accounts;
            balanced = k.balanced;
          } in
          hand_out-IsSound segment_width wp _ (
            if-both IsSound ((g'.settings.ergodicity == 2) && (wp.ex_size_bytes == 0))
              (shuffle random g') g' h' h))

  pub submit_proof_async-IsSound :
      (p : Solution) (f : Farm)
      → p.midx < length f.telemetry_miners
      → IsSound f
      → Ensures (λ (o : Outcome). IsSound o.1) (submit_proof_async calloc thread p f)
  unfolding submit_proof_async
  submit_proof_async-IsSound p f lt s =
      let P = λ (o : Outcome). IsSound o.1 in
      if-both (Ensures P) f.settings.no_eval (some (none, on_solution_found p f)) _
        (record { places = s.places; accounts = s.accounts; balanced = s.balanced })
        (Ensures-intro P _ (λ o h.
          let (e, _, h) = >>=-eq-some p.work.epoch _ h in
          let (r, _, h) =
            >>=-eq-some (eval calloc thread e p.work.block p.work.header p.nonce f.managed) _ h in
          let g = record f { managed = r.1 } in
          let k : IsSound g = record {
            places = s.places;
            accounts = s.accounts;
            balanced = s.balanced;
          } in
          let k' : IsSound (on_solution_found (record p { mix_hash = r.0.mix_hash }) g) = record {
            places = s.places;
            accounts = s.accounts;
            balanced = s.balanced;
          } in
          Ensures-at P _ o
            (if-both P (h256_greater r.0.final_hash p.work.boundary)
              (account_solution p.midx failed g)
              (none, on_solution_found (record p { mix_hash = r.0.mix_hash }) g)
              (account_solution-IsSound g k p.midx failed lt) k')
            h))
