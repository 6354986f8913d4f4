-- ===== src/Miner/Pauses.antt =====
-- The reasons to pause of libethcore/Miner.cpp, and the place of a miner.
use quai_gpu_miner_archive.EthashAux.{WorkPackage, EpochContext}
use quai_gpu_miner_archive.Miner.{
  Miner, Call, MinerPauseEnum, bit_of, new_miner, call, paused, write_work, set_work, pause, resume,
  set_epoch,
}
use quai_gpu_miner_archive.Prelude.{ℕ, ◌≡◌, refl, ◌∙◌, Bool, true, false, length, length-set}

-- A miner at this place of the farm's list, with the bits of its reasons.
pub record IsPlaced (i : ℕ) (m : Miner) : Type 0 where
  pub placed : m.index ≡ i
  pub flags : length m.pause_flags ≡ 5

pub new_miner-IsPlaced : (i : ℕ) → IsPlaced i (new_miner i)
new_miner-IsPlaced i = record { placed = refl; flags = refl }

module _ (i : ℕ) (m : Miner) (s : IsPlaced i m) where
  pub call-IsPlaced : (c : Call) → IsPlaced i (call c m)
  unfolding paused
  call-IsPlaced c = record { placed = s.placed; flags = s.flags }

  pub write_work-IsPlaced :
      (was_paused : Bool) (work : WorkPackage) → IsPlaced i (write_work was_paused work m)
  unfolding write_work
  write_work-IsPlaced true work = record { placed = s.placed; flags = s.flags }
  write_work-IsPlaced false work = record { placed = s.placed; flags = s.flags }

  pub set_work-IsPlaced : (work : WorkPackage) → IsPlaced i (set_work work m)
  unfolding set_work
  set_work-IsPlaced work = write_work-IsPlaced (paused m) work

  pub pause-IsPlaced : (what : MinerPauseEnum) → IsPlaced i (pause what m)
  unfolding pause paused
  pause-IsPlaced what = record {
    placed = s.placed;
    flags = length-set m.pause_flags (bit_of what) true ∙ s.flags;
  }

  pub resume-IsPlaced : (what : MinerPauseEnum) → IsPlaced i (resume what m)
  unfolding resume paused
  resume-IsPlaced what = record {
    placed = s.placed;
    flags = length-set m.pause_flags (bit_of what) false ∙ s.flags;
  }

  pub set_epoch-IsPlaced : (ec : EpochContext) → IsPlaced i (set_epoch ec m)
  unfolding set_epoch paused
  set_epoch-IsPlaced ec = record { placed = s.placed; flags = s.flags }
