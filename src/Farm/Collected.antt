-- ===== src/Farm/Collected.antt =====
-- What `collectData` of libethcore/Farm.cpp leaves as it is.
use quai_gpu_miner_archive.Miner.{
  Miner, pause as pause_miner, resume as resume_miner, pause_due_to_over_heating, pause_test,
  paused as miner_paused,
}
use quai_gpu_miner_archive.Miner.Pauses.{IsPlaced, pause-IsPlaced, resume-IsPlaced}
use quai_gpu_miner_archive.Farm.{
  FarmSettings, HwSensors, TelemetryAccount, Error, SolutionAccountingEnum,
}
use quai_gpu_miner_archive.Farm.Collecting.{control, collect_miner, collect_loop}
use quai_gpu_miner_archive.Farm.Accounts.{total, total-set, tally}
use quai_gpu_miner_archive.Farm.Places.{ArePlaced}
use quai_gpu_miner_archive.Prelude.{
  ℕ, suc, ◌+◌, ◌≡◌, refl, ap, ◌∙◌, inl, inr, not, ◌&&◌, Option, List, [], ◌∷◌, arith, leb, ◌==◌,
  if◌then◌else◌, Option-cases, if-both, length, get_elem?, set, length-set,
}

control-IsPlaced :
    (settings : FarmSettings) (t i : ℕ) (m : Miner)
    → IsPlaced i m
    → IsPlaced i (control settings t m)
unfolding control
control-IsPlaced settings t i m h =
    let hot = pause_miner pause_due_to_over_heating m in
    let too_hot = not (pause_test pause_due_to_over_heating m) && leb settings.temp_stop t in
    let next = if too_hot then hot else m in
    let h' =
      if-both (IsPlaced i) too_hot hot m (pause-IsPlaced i m h pause_due_to_over_heating) h in
    if-both (IsPlaced i) (pause_test pause_due_to_over_heating m && leb t settings.temp_start)
      (resume_miner pause_due_to_over_heating next) next
      (resume-IsPlaced i next h' pause_due_to_over_heating) h'

-- A look at a miner leaves it at its place, and its solutions as they are.
collect_miner-keeps :
    (settings : FarmSettings) (sensors : HwSensors) (i : ℕ) (m : Miner) (t : TelemetryAccount)
    → IsPlaced i m
    → IsPlaced i (collect_miner settings sensors m t).0
      × ((collect_miner settings sensors m t).1.solutions ≡ t.solutions)
unfolding collect_miner
collect_miner-keeps settings sensors i m t h =
    let t1 = record t { paused = miner_paused m } in
    let next = if settings.temp_stop == 0 then m else control settings sensors.temp_c m in
    let h' =
      if-both (IsPlaced i) (settings.temp_stop == 0) m (control settings sensors.temp_c m) h
        (control-IsPlaced settings sensors.temp_c i m h) in
    if-both (λ (r : Miner × TelemetryAccount). IsPlaced i r.0 × (r.1.solutions ≡ t.solutions))
      (settings.hw_mon == 0) (m, t1) (next, record t1 { sensors = sensors }) (h, refl) (h', refl)

-- What a loop over the miners from the place `i` on leaves.
pub record IsCollected (i : ℕ) (ms : List Miner) (ts : List TelemetryAccount)
    (r : Option Error × List Miner × List TelemetryAccount) : Type 0 where
  pub places : ArePlaced i r.1
  pub same_miners : length r.1 ≡ length ms
  pub same_accounts : length r.2 ≡ length ts
  pub same_totals : (b : SolutionAccountingEnum) → total b r.2 ≡ total b ts

pub collect_loop-IsCollected :
    (settings : FarmSettings) (sensors : ℕ → HwSensors) (i : ℕ) (ms : List Miner)
    (ts : List TelemetryAccount)
    → ArePlaced i ms
    → IsCollected i ms ts (collect_loop settings sensors ms ts)
unfolding collect_loop
collect_loop-IsCollected settings sensors i [] ts h = record {
  places = tt;
  same_miners = refl;
  same_accounts = refl;
  same_totals = λ b. refl;
}
collect_loop-IsCollected settings sensors i (m ∷ ms) ts h =
    elim (Option-cases (get_elem? ts m.index)) [
      | inl e ↦
          rw (collect_loop, e)
            (record {
              places = h;
              same_miners = refl;
              same_accounts = refl;
              same_totals = λ b. refl;
            })
      | inr (t, e) ↦
          (let keeps = collect_miner-keeps settings (sensors m.index) i m t h.0 in
            let t' = (collect_miner settings (sensors m.index) m t).1 in
            let rest =
              collect_loop-IsCollected settings sensors (i + 1) ms (set ts m.index t') h.1 in
            rw (collect_loop, e)
              (record {
                places = (keeps.0, rest.places);
                same_miners = ap suc rest.same_miners;
                same_accounts = rest.same_accounts ∙ length-set ts m.index t';
                same_totals = λ b. omega (
                  arith,
                  rest.same_totals b,
                  total-set b ts m.index t t' e,
                  ap (tally b) keeps.1,
                );
              }))
    ]
