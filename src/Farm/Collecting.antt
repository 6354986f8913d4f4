-- ===== src/Farm/Collecting.antt =====
-- `collectData` of libethcore/Farm.cpp: what each miner's account takes over, and the control of the
-- temperature. What the monitors tell of a miner's device, 0 where they tell nothing, is an argument.
use quai_gpu_miner_archive.Miner.{
  Miner, paused as miner_paused, pause_test, pause as pause_miner, resume as resume_miner,
  pause_due_to_over_heating,
}
use quai_gpu_miner_archive.Farm.{
  Farm, FarmSettings, TelemetryAccount, HwSensors, Error, Outcome, at_out_of_range,
}
use quai_gpu_miner_archive.Prelude.{
  ℕ, Bool, not, ◌&&◌, Option, none, some, List, [], ◌∷◌, leb, ◌==◌, if◌then◌else◌, get_elem?, set,
}

-- The check of the thresholds.
unfoldable pub control : FarmSettings → ℕ → Miner → Miner
control settings temp_c miner =
    let paused = pause_test pause_due_to_over_heating miner in
    let too_hot = not paused && leb settings.temp_stop temp_c in
    let miner = if too_hot then pause_miner pause_due_to_over_heating miner else miner in
    let cooled = paused && leb temp_c settings.temp_start in
    if cooled then resume_miner pause_due_to_over_heating miner else miner

unfoldable pub collect_miner :
    FarmSettings → HwSensors → Miner → TelemetryAccount → Miner × TelemetryAccount
unfolding control
collect_miner settings sensors miner t =
    let t = record t { paused = miner_paused miner } in
    let controlled =
      if settings.temp_stop == 0 then miner else control settings sensors.temp_c miner in
    if settings.hw_mon == 0 then (miner, t) else (controlled, record t { sensors = sensors })

-- The loop over the miners; the account of a miner is at its index.
unfoldable pub collect_loop :
    FarmSettings
    → (ℕ → HwSensors)
    → List Miner
    → List TelemetryAccount
    → Option Error × List Miner × List TelemetryAccount
unfolding collect_miner
collect_loop settings sensors [] telemetry = (none, [], telemetry)
collect_loop settings sensors (miner ∷ miners) telemetry = elim (get_elem? telemetry miner.index) [
  | none ↦ (some at_out_of_range, miner ∷ miners, telemetry)
  | some t ↦
      (let (miner', t') = collect_miner settings (sensors miner.index) miner t in
        let (error, miners', telemetry') =
          collect_loop settings sensors miners (set telemetry miner.index t') in
        (error, miner' ∷ miners', telemetry'))
]

unfoldable pub collect_data : (ℕ → HwSensors) → Bool → Farm → Outcome
unfolding collect_loop
collect_data sensors ec farm =
    let (error, miners, telemetry_miners) =
      collect_loop farm.settings sensors farm.miners farm.telemetry_miners in
    if ec
    then (none, farm)
    else (error, record farm { miners = miners; telemetry_miners = telemetry_miners })
