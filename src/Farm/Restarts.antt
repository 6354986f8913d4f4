-- ===== src/Farm/Restarts.antt =====
-- A restart of the farm of libethcore/Farm.cpp, as its manager's handler carries it out.
use quai_gpu_miner_archive.Miner.{Miner}
use quai_gpu_miner_archive.Farm.{
  Farm, TelemetryAccount, DeviceSubscriptionTypeEnum, minered, start_devices, start, stop, restart,
  new_telemetry, prefix_of, call, start_working, new_miner,
}
use quai_gpu_miner_archive.Prelude.{
  ℕ, ◌+◌, ◌≡◌, refl, sym, ap, ◌∙◌, inl, inr, Bool, true, List, [], ◌∷◌, ◌++◌, if◌then◌else◌,
  Bool-cases, length, length-append,
}

-- The devices that get a miner.
pub minered_devices :
    (DeviceSubscriptionTypeEnum → Bool)
    → List DeviceSubscriptionTypeEnum
    → List DeviceSubscriptionTypeEnum
minered_devices built [] = []
minered_devices built (device ∷ devices) =
    let rest = minered_devices built devices in if minered built device then device ∷ rest else rest

-- A fresh account for each of the devices.
pub fresh_accounts : List DeviceSubscriptionTypeEnum → List TelemetryAccount
fresh_accounts [] = []
fresh_accounts (device ∷ devices) = new_telemetry (prefix_of device) ∷ fresh_accounts devices

-- Miners with the indices from one on, one for each of the devices, each of them started once.
pub started_miners : ℕ → List DeviceSubscriptionTypeEnum → List Miner
started_miners i [] = []
started_miners i (device ∷ devices) =
    call start_working (new_miner i) ∷ started_miners (i + 1) devices

append_assoc {ℓ} : {A : Type ℓ} (xs ys zs : List A) → (xs ++ ys) ++ zs ≡ xs ++ (ys ++ zs)
append_assoc [] ys zs = refl
append_assoc (x ∷ xs) ys zs = ap (λ t. x ∷ t) (append_assoc xs ys zs)

append-nil {ℓ} : {A : Type ℓ} (xs : List A) → xs ++ [] ≡ xs
append-nil [] = refl
append-nil (x ∷ xs) = ap (λ t. x ∷ t) (append-nil xs)

start_devices_lem :
    (built : DeviceSubscriptionTypeEnum → Bool) (devices : List DeviceSubscriptionTypeEnum)
    (ms : List Miner) (ts : List TelemetryAccount)
    → ((start_devices built devices (ms, ts)).0
        ≡ ms ++ started_miners (length ms) (minered_devices built devices))
      × ((start_devices built devices (ms, ts)).1
          ≡ ts ++ fresh_accounts (minered_devices built devices))
unfolding start_devices minered_devices fresh_accounts started_miners
start_devices_lem built [] ms ts = (sym (append-nil ms), sym (append-nil ts))
start_devices_lem built (device ∷ devices) ms ts = elim (Bool-cases (minered built device)) [
  | inl e ↦
      (let m = call start_working (new_miner (length ms)) in
        let t = new_telemetry (prefix_of device) in
        let rest = start_devices_lem built devices (ms ++ m ∷ []) (ts ++ t ∷ []) in
        rw (start_devices, minered_devices, e)
          (
            rest.0
                ∙ append_assoc ms (m ∷ [])
                    (started_miners (length (ms ++ m ∷ [])) (minered_devices built devices))
                ∙ ap (λ i. ms ++ m ∷ started_miners i (minered_devices built devices))
                    (length-append ms (m ∷ [])),
            rest.1 ∙ append_assoc ts (t ∷ []) (fresh_accounts (minered_devices built devices)),
          ))
  | inr e ↦ rw (start_devices, minered_devices, e) (start_devices_lem built devices ms ts)
]

-- A restart of a farm that is mining leaves it mining with new miners in place of the old: one for each
-- device that can have one, with its place as its index, each of them started. It gives each a fresh
-- account behind the accounts of the miners before, which stay in the list.
pub restart_lem :
    (built : DeviceSubscriptionTypeEnum → Bool) (f : Farm)
    → f.is_mining ≡ true
    → ((restart built f).is_mining ≡ true)
      × ((restart built f).miners ≡ started_miners 0 (minered_devices built f.devices))
      × ((restart built f).telemetry_miners
          ≡ f.telemetry_miners ++ fresh_accounts (minered_devices built f.devices))
unfolding restart start stop
restart_lem built f mining =
    let r = start_devices_lem built f.devices [] f.telemetry_miners in
    rw (restart, start, stop, mining) (refl, r.0, r.1)
