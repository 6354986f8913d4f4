-- ===== src/Farm/Accounts.antt =====
-- The accounts of solutions of libethcore/Farm.cpp: the farm's and those of its miners.
use quai_gpu_miner_archive.Miner.{Miner}
use quai_gpu_miner_archive.Farm.{
  Farm, SolutionAccount, SolutionAccountingEnum, accepted, rejected, wasted, failed,
  TelemetryAccount, DeviceSubscriptionTypeEnum, new_telemetry, minered, prefix_of, Outcome,
  start_devices, count, account_solution,
}
use quai_gpu_miner_archive.Prelude.{
  ℕ, zero, suc, ◌+◌, ◌<◌, ◌≡◌, refl, sym, ap, ◌∙◌, subst, ◌⊎◌, inl, inr, Bool, Option, none, some,
  List, [], ◌∷◌, ◌++◌, arith, Bool-cases, length, get_elem?, set, get_elem?-lt, u32,
}

-- The number under one heading of an account.
abbrev pub tally : SolutionAccountingEnum → SolutionAccount → ℕ
tally accepted s = s.accepted_count
tally rejected s = s.rejected_count
tally wasted s = s.wasted_count
tally failed s = s.failed_count

-- The sum of the miners' numbers under one heading.
unfoldable pub total : SolutionAccountingEnum → List TelemetryAccount → ℕ
total b [] = 0
total b (t ∷ ts) = tally b t.solutions + total b ts

-- The farm's account is the sum of the miners', in 32 bits.
abbrev pub IsBalanced : Farm → Type 0
IsBalanced farm =
    (b : SolutionAccountingEnum) → tally b farm.solutions ≡ u32 (total b farm.telemetry_miners)

-- Either both accounts count one more under a heading, or neither does.
count_lem :
    (a b : SolutionAccountingEnum) (s t : SolutionAccount)
    → ((tally b (count a s) ≡ u32 (tally b s + 1)) × (tally b (count a t) ≡ u32 (tally b t + 1)))
      ⊎ ((tally b (count a s) ≡ tally b s) × (tally b (count a t) ≡ tally b t))
unfolding count
count_lem accepted accepted s t = inl (refl, refl)
count_lem accepted rejected s t = inr (refl, refl)
count_lem accepted wasted s t = inr (refl, refl)
count_lem accepted failed s t = inr (refl, refl)
count_lem rejected accepted s t = inr (refl, refl)
count_lem rejected rejected s t = inl (refl, refl)
count_lem rejected wasted s t = inr (refl, refl)
count_lem rejected failed s t = inr (refl, refl)
count_lem wasted accepted s t = inr (refl, refl)
count_lem wasted rejected s t = inr (refl, refl)
count_lem wasted wasted s t = inl (refl, refl)
count_lem wasted failed s t = inr (refl, refl)
count_lem failed accepted s t = inr (refl, refl)
count_lem failed rejected s t = inr (refl, refl)
count_lem failed wasted s t = inr (refl, refl)
count_lem failed failed s t = inl (refl, refl)

pub total-set :
    (b : SolutionAccountingEnum) (ts : List TelemetryAccount) (i : ℕ) (t t' : TelemetryAccount)
    → get_elem? ts i ≡ some t
    → total b (set ts i t') + tally b t.solutions ≡ total b ts + tally b t'.solutions
unfolding total
total-set b [] i t t' h = absurd (cc h)
total-set b (x ∷ ts) zero t t' h =
    let e : tally b x.solutions ≡ tally b t.solutions =
      ap (λ (o : Option TelemetryAccount). elim o [ none ↦ 0 | some a ↦ tally b a.solutions ]) h in
    omega arith
total-set b (x ∷ ts) (suc i) t t' h = omega (arith, total-set b ts i t t' h)

total-append :
    (b : SolutionAccountingEnum) (ts us : List TelemetryAccount)
    → total b (ts ++ us) ≡ total b ts + total b us
unfolding total
total-append b [] us = omega arith
total-append b (t ∷ ts) us = omega (arith, total-append b ts us)

-- New miners have found nothing.
new_telemetry-total :
    (b : SolutionAccountingEnum) (ts : List TelemetryAccount) (prefix : List ℕ)
    → total b (ts ++ new_telemetry prefix ∷ []) ≡ total b ts
unfolding total
new_telemetry-total accepted ts prefix =
    omega (arith, total-append accepted ts (new_telemetry prefix ∷ []))
new_telemetry-total rejected ts prefix =
    omega (arith, total-append rejected ts (new_telemetry prefix ∷ []))
new_telemetry-total wasted ts prefix =
    omega (arith, total-append wasted ts (new_telemetry prefix ∷ []))
new_telemetry-total failed ts prefix =
    omega (arith, total-append failed ts (new_telemetry prefix ∷ []))

-- What starting miners for the devices keeps.
pub start_devices-total :
    (built : DeviceSubscriptionTypeEnum → Bool) (b : SolutionAccountingEnum)
    (devices : List DeviceSubscriptionTypeEnum) (ms : List Miner) (ts : List TelemetryAccount)
    → total b (start_devices built devices (ms, ts)).1 ≡ total b ts
unfolding start_devices
start_devices-total built b [] ms ts = refl
start_devices-total built b (device ∷ devices) ms ts = elim (Bool-cases (minered built device)) [
  | inl e ↦
      rw (start_devices, e)
        (start_devices-total built b devices _ _ ∙ new_telemetry-total b ts (prefix_of device))
  | inr e ↦ rw (start_devices, e) (start_devices-total built b devices ms ts)
]

pub account_solution-some :
    (i : ℕ) (a : SolutionAccountingEnum) (farm : Farm) (t : TelemetryAccount)
    → get_elem? farm.telemetry_miners i ≡ some t
    → account_solution i a farm ≡ (
      none,
      record farm {
        solutions = count a farm.solutions;
        telemetry_miners =
            set farm.telemetry_miners i (record t { solutions = count a t.solutions });
      },
    )
unfolding account_solution
account_solution-some i a farm t found = rw (account_solution, found) refl

pub account_solution-IsBalanced :
    (i : ℕ) (a : SolutionAccountingEnum) (farm : Farm)
    → i < length farm.telemetry_miners
    → IsBalanced farm
    → IsBalanced (account_solution i a farm).1
account_solution-IsBalanced i a farm lt balanced =
    let (t, found) = get_elem?-lt farm.telemetry_miners i lt in
    let t' = record t { solutions = count a t.solutions } in
    subst (λ (o : Outcome). IsBalanced o.1) (sym (account_solution-some i a farm t found))
      (λ b.
        let e = total-set b farm.telemetry_miners i t t' found in
        let old = balanced b in
        elim (count_lem a b farm.solutions t.solutions) [
          | inl (f, g) ↦ omega (arith, e, f, g, old)
          | inr (f, g) ↦ omega (arith, e, f, g, old)
        ])
