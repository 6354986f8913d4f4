-- ===== src/Farm/Places.antt =====
-- The list of miners of libethcore/Farm.cpp: their places.
use quai_gpu_miner_archive.Miner.{Miner, new_miner, call, start_working}
use quai_gpu_miner_archive.Miner.Pauses.{IsPlaced, new_miner-IsPlaced, call-IsPlaced}
use quai_gpu_miner_archive.Farm.{
  TelemetryAccount, DeviceSubscriptionTypeEnum, minered, start_devices, new_telemetry, prefix_of,
}
use quai_gpu_miner_archive.Farm.Steps.{at_miner}
use quai_gpu_miner_archive.Prelude.{
  ℕ, zero, suc, ◌+◌, ◌≡◌, refl, ap, subst, Bool, List, [], ◌∷◌, ◌++◌, map, arith, if-both, length,
  length-append,
}

-- The miners from the place `i` on are at their places.
abbrev pub ArePlaced : ℕ → List Miner → Type 0
ArePlaced i [] = Unit
ArePlaced i (m ∷ ms) = IsPlaced i m × ArePlaced (i + 1) ms

pub map-ArePlaced :
    (g : Miner → Miner)
    → ((i : ℕ) (m : Miner) → IsPlaced i m → IsPlaced i (g m))
    → (i : ℕ) (ms : List Miner) → ArePlaced i ms
    → ArePlaced i (map g ms)
map-ArePlaced g keep i [] h = tt
map-ArePlaced g keep i (m ∷ ms) h = (keep i m h.0, map-ArePlaced g keep (i + 1) ms h.1)

pub at_miner-ArePlaced :
    (g : Miner → Miner)
    → ((i : ℕ) (m : Miner) → IsPlaced i m → IsPlaced i (g m))
    → (k i : ℕ) (ms : List Miner) → ArePlaced i ms
    → ArePlaced i (at_miner g k ms)
at_miner-ArePlaced g keep k i [] h = tt
at_miner-ArePlaced g keep zero i (m ∷ ms) h = (keep i m h.0, h.1)
at_miner-ArePlaced g keep (suc k) i (m ∷ ms) h = (h.0, at_miner-ArePlaced g keep k (i + 1) ms h.1)

pub length-at_miner :
    (g : Miner → Miner) (k : ℕ) (ms : List Miner) → length (at_miner g k ms) ≡ length ms
length-at_miner g k [] = refl
length-at_miner g zero (m ∷ ms) = refl
length-at_miner g (suc k) (m ∷ ms) = ap suc (length-at_miner g k ms)

append-ArePlaced :
    (i : ℕ) (ms : List Miner) (m : Miner)
    → ArePlaced i ms
    → IsPlaced (i + length ms) m
    → ArePlaced i (ms ++ m ∷ [])
append-ArePlaced i [] m h p = (subst (λ k. IsPlaced k m) (omega arith) p, tt)
append-ArePlaced i (x ∷ ms) m h p =
    (h.0, append-ArePlaced (i + 1) ms m h.1 (subst (λ k. IsPlaced k m) (omega arith) p))

-- The miners that are started for the devices have their accounts behind the accounts there were.
abbrev pub AreStarted : ℕ → List Miner × List TelemetryAccount → Type 0
AreStarted n r = ArePlaced 0 r.0 × (n + length r.0 ≡ length r.1)

pub start_devices-AreStarted :
    (built : DeviceSubscriptionTypeEnum → Bool) (n : ℕ) (devices : List DeviceSubscriptionTypeEnum)
    (r : List Miner × List TelemetryAccount)
    → AreStarted n r
    → AreStarted n (start_devices built devices r)
unfolding start_devices
start_devices-AreStarted built n [] (ms, ts) h = h
start_devices-AreStarted built n (device ∷ devices) (ms, ts) h =
    let m = call start_working (new_miner (length ms)) in
    let t = new_telemetry (prefix_of device) in
    start_devices-AreStarted built n devices _ (
      if-both (AreStarted n) (minered built device) (ms ++ m ∷ [], ts ++ t ∷ []) (ms, ts)
        (
          append-ArePlaced 0 ms m h.0 (
              subst (λ k. IsPlaced k m) (omega arith)
                (call-IsPlaced (length ms) (new_miner (length ms)) (new_miner-IsPlaced (length ms))
                  start_working)),
          omega (arith, h.1, length-append ms (m ∷ []), length-append ts (t ∷ [])),
        )
        h)
