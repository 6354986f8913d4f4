-- ===== src/Farm/Temperature.antt =====
-- The control of the temperature in `collectData` of libethcore/Farm.cpp, and the reasons to pause.
use quai_gpu_miner_archive.Miner.{
  Miner, MinerPauseEnum, bit_of, pause_test, pause as pause_miner, resume as resume_miner,
  pause_due_to_over_heating,
}
use quai_gpu_miner_archive.Farm.{FarmSettings}
use quai_gpu_miner_archive.Farm.Collecting.{control}
use quai_gpu_miner_archive.Prelude.{
  ℕ, zero, suc, ◌<◌, ◌≡◌, refl, sym, ap, ◌∙◌, ◌⊎◌, inl, inr, Bool, true, false, List, [], ◌∷◌,
  arith, ltb, leb, if◌then◌else◌, lt→ltb, leb_false→lt, Bool-cases, length, get_or, set,
}

leb→ltb : (a b : ℕ) → leb a b ≡ true → ltb b a ≡ false
leb→ltb a b h = ground arith

get_or-set_self :
    (flags : List Bool) (k : ℕ) (b : Bool) → k < length flags → get_or (set flags k b) k false ≡ b
get_or-set_self [] k b lt = absurd (omega arith)
get_or-set_self (x ∷ flags) zero b lt = refl
get_or-set_self (x ∷ flags) (suc k) b lt = get_or-set_self flags k b (omega arith)

get_or-set_ne :
    (flags : List Bool) (k j : ℕ) (b : Bool)
    → ¬ (k ≡ j)
    → get_or (set flags k b) j false ≡ get_or flags j false
get_or-set_ne [] k j b ne = refl
get_or-set_ne (x ∷ flags) zero zero b ne = absurd (ne refl)
get_or-set_ne (x ∷ flags) zero (suc j) b ne = refl
get_or-set_ne (x ∷ flags) (suc k) zero b ne = refl
get_or-set_ne (x ∷ flags) (suc k) (suc j) b ne = get_or-set_ne flags k j b (λ e. ne (ap suc e))

-- Whether the reason is set once the thresholds have been checked.
abbrev pub overheats : FarmSettings → ℕ → Bool → Bool
overheats settings temp_c was =
    if was then ltb settings.temp_start temp_c else leb settings.temp_stop temp_c

-- What a change of one reason leaves.
set-pause_test :
    (k : ℕ) (b : Bool) (m : Miner) (what : MinerPauseEnum)
    → ¬ (k ≡ bit_of what)
    → get_or (set m.pause_flags k b) (bit_of what) false ≡ pause_test what m
unfolding pause_test
set-pause_test k b m what ne = get_or-set_ne m.pause_flags k (bit_of what) b ne

-- The four ways through the check.
control_cases :
    (settings : FarmSettings) (temp_c : ℕ) (m : Miner)
    → ((control settings temp_c m ≡ m)
        × (overheats settings temp_c (pause_test pause_due_to_over_heating m)
            ≡ pause_test pause_due_to_over_heating m))
      ⊎ ((control settings temp_c m ≡ pause_miner pause_due_to_over_heating m)
          × (overheats settings temp_c (pause_test pause_due_to_over_heating m) ≡ true))
      ⊎ ((control settings temp_c m ≡ resume_miner pause_due_to_over_heating m)
          × (overheats settings temp_c (pause_test pause_due_to_over_heating m) ≡ false))
unfolding control
control_cases settings temp_c m = elim (Bool-cases (pause_test pause_due_to_over_heating m)) [
  | inl was ↦ elim (Bool-cases (leb temp_c settings.temp_start)) [
    | inl cool ↦
        inr (inr (simp (control, was, cool), simp (was, leb→ltb temp_c settings.temp_start cool)))
    | inr hot ↦ inl (
      simp (control, was, hot),
      simp (was, lt→ltb settings.temp_start temp_c (leb_false→lt temp_c settings.temp_start hot)),
    )
  ]
  | inr was_not ↦ elim (Bool-cases (leb settings.temp_stop temp_c)) [
    | inl hot ↦ inr (inl (simp (control, was_not, hot), simp (was_not, hot)))
    | inr cool ↦ inl (simp (control, was_not, cool), simp (was_not, cool))
  ]
]

-- A miner that is not too hot becomes so at the upper threshold, and one that is stops being so only at
-- the lower threshold: between them it stays as it is. The other reasons to pause are not touched.
pub control_lem :
    (settings : FarmSettings) (temp_c : ℕ) (m : Miner)
    → length m.pause_flags ≡ 5
    → (pause_test pause_due_to_over_heating (control settings temp_c m)
        ≡ overheats settings temp_c (pause_test pause_due_to_over_heating m))
      × ((what : MinerPauseEnum)
          → ¬ (0 ≡ bit_of what)
          → pause_test what (control settings temp_c m) ≡ pause_test what m)
unfolding pause_test pause_miner resume_miner
control_lem settings temp_c m five = elim (control_cases settings temp_c m) [
  | inl (e, same) ↦
      (ap (pause_test pause_due_to_over_heating) e ∙ sym same, λ what ne. ap (pause_test what) e)
  | inr (inl (e, hot)) ↦ (
    ap (pause_test pause_due_to_over_heating) e
        ∙ get_or-set_self m.pause_flags 0 true (omega (arith, five))
        ∙ sym hot,
    λ what ne. ap (pause_test what) e ∙ set-pause_test 0 true m what ne,
  )
  | inr (inr (e, cool)) ↦ (
    ap (pause_test pause_due_to_over_heating) e
        ∙ get_or-set_self m.pause_flags 0 false (omega (arith, five))
        ∙ sym cool,
    λ what ne. ap (pause_test what) e ∙ set-pause_test 0 false m what ne,
  )
]
