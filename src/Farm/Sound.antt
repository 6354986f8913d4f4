-- ===== src/Farm/Sound.antt =====
-- The invariant of the farm of libethcore/Farm.cpp, and the operations on its miners that keep it.
use quai_gpu_miner_archive.Miner.{
  Miner, call, start_working, pause as pause_miner, resume as resume_miner,
  pause_due_to_farm_paused,
}
use quai_gpu_miner_archive.Miner.Pauses.{IsPlaced, call-IsPlaced, pause-IsPlaced, resume-IsPlaced}
use quai_gpu_miner_archive.Farm.{
  Farm, Outcome, HwSensors, DeviceSubscriptionTypeEnum, start_devices, start, stop, pause, resume,
  account_solution, SolutionAccountingEnum, count,
}
use quai_gpu_miner_archive.Farm.Collecting.{collect_data}
use quai_gpu_miner_archive.Farm.Accounts.{
  IsBalanced, start_devices-total, account_solution-some, account_solution-IsBalanced,
}
use quai_gpu_miner_archive.Farm.Places.{
  ArePlaced, map-ArePlaced, at_miner-ArePlaced, length-at_miner, start_devices-AreStarted,
}
use quai_gpu_miner_archive.Farm.Steps.{at_miner}
use quai_gpu_miner_archive.Prelude.{
  ℕ, ◌≤◌, ◌<◌, sym, ap, ◌∙◌, subst, Bool, none, List, [], map, arith, ◌==◌, if-both, length,
  length-set, get_elem?-lt, length-map, u32,
}
use quai_gpu_miner_archive.Farm.Collected.{collect_loop-IsCollected}

pub record IsSound (f : Farm) : Type 0 where
  pub places : ArePlaced 0 f.miners
  pub accounts : length f.miners ≤ length f.telemetry_miners
  pub balanced : IsBalanced f

module _ (f : Farm) (s : IsSound f) where
  pub miners-IsSound :
      (ms : List Miner)
      → ArePlaced 0 ms
      → length ms ≤ length f.telemetry_miners
      → IsSound (record f { miners = ms })
  miners-IsSound ms h le = record { places = h; accounts = le; balanced = s.balanced }

  pub map-IsSound :
      (g : Miner → Miner)
      → ((i : ℕ) (m : Miner) → IsPlaced i m → IsPlaced i (g m))
      → IsSound (record f { miners = map g f.miners })
  map-IsSound g keep =
      miners-IsSound (map g f.miners) (map-ArePlaced g keep 0 f.miners s.places)
        (omega (arith, length-map g f.miners, s.accounts))

  pub at_miner-IsSound :
      (g : Miner → Miner) (i : ℕ)
      → ((i : ℕ) (m : Miner) → IsPlaced i m → IsPlaced i (g m))
      → IsSound (record f { miners = at_miner g i f.miners })
  at_miner-IsSound g i keep =
      miners-IsSound (at_miner g i f.miners) (at_miner-ArePlaced g keep i 0 f.miners s.places)
        (omega (arith, length-at_miner g i f.miners, s.accounts))

  pub start-IsSound : (built : DeviceSubscriptionTypeEnum → Bool) → IsSound (start built f)
  unfolding start
  start-IsSound built =
      let n = length f.telemetry_miners in
      let r = start_devices built f.devices ([], f.telemetry_miners) in
      let h =
        start_devices-AreStarted built n f.devices ([], f.telemetry_miners) (tt, omega arith) in
      let again = map-IsSound (call start_working) (λ i m p. call-IsPlaced i m p start_working) in
      if-both IsSound f.is_mining f _ s (
        if-both IsSound (length f.miners == 0) _ _
          (record {
            places = h.0;
            accounts = omega (arith, h.1);
            balanced = λ b.
                s.balanced b
                ∙ ap u32 (sym (start_devices-total built b f.devices [] f.telemetry_miners));
          })
          (record { places = again.places; accounts = again.accounts; balanced = again.balanced }))

  pub stop-IsSound : IsSound (stop f)
  unfolding stop
  stop-IsSound =
      if-both IsSound f.is_mining _ f
        (record { places = tt; accounts = omega arith; balanced = s.balanced }) s

  pub pause-IsSound : IsSound (pause f)
  unfolding pause
  pause-IsSound =
      let paused =
        map-IsSound (pause_miner pause_due_to_farm_paused)
          (λ i m p. pause-IsPlaced i m p pause_due_to_farm_paused) in
      record { places = paused.places; accounts = paused.accounts; balanced = s.balanced }

  pub resume-IsSound : IsSound (resume f)
  unfolding resume
  resume-IsSound =
      let resumed =
        map-IsSound (resume_miner pause_due_to_farm_paused)
          (λ i m p. resume-IsPlaced i m p pause_due_to_farm_paused) in
      record { places = resumed.places; accounts = resumed.accounts; balanced = s.balanced }

  pub account_solution-IsSound :
      (i : ℕ) (a : SolutionAccountingEnum)
      → i < length f.telemetry_miners
      → IsSound (account_solution i a f).1
  account_solution-IsSound i a lt =
      let (t, found) = get_elem?-lt f.telemetry_miners i lt in
      let e = account_solution-some i a f t found in
      subst (λ (o : Outcome). IsSound o.1) (sym e)
        (record {
          places = s.places;
          accounts = omega (
            arith,
            s.accounts,
            length-set f.telemetry_miners i (record t { solutions = count a t.solutions }),
          );
          balanced =
              subst (λ (o : Outcome). IsBalanced o.1) e
                (account_solution-IsBalanced i a f lt s.balanced);
        })

  pub collect_data-IsSound :
      (sensors : ℕ → HwSensors) (ec : Bool) → IsSound (collect_data sensors ec f).1
  unfolding collect_data
  collect_data-IsSound sensors ec =
      let c = collect_loop-IsCollected f.settings sensors 0 f.miners f.telemetry_miners s.places in
      if-both (λ (o : Outcome). IsSound o.1) ec (none, f) _ s
        (record {
          places = c.places;
          accounts = omega (arith, c.same_miners, c.same_accounts, s.accounts);
          balanced = λ b. s.balanced b ∙ ap u32 (sym (c.same_totals b));
        })
