-- ===== src/Stratum/Guards.antt =====
-- What guards the client against what a pool sends at the wrong time.
use quai_gpu_miner_archive.Stratum.{StratumClient, Json, returned, is_subscribed}
use quai_gpu_miner_archive.Stratum.Messages.{Message, is_invalid}
use quai_gpu_miner_archive.Stratum.Receiving.{process_message}
use quai_gpu_miner_archive.Stratum.Jobs.{notify}
use quai_gpu_miner_archive.Stratum.Logins.{quit}
use quai_gpu_miner_archive.Ethash.Hash.{Hash}
use quai_gpu_miner_archive.Prelude.{◌≡◌, refl, true, false, not, ◌||◌, Option, if◌then◌else◌}

module _ {Value : Type 0} (json : Json Value) (difficulty_target : Option Value → Option Hash) where
  -- A notification that comes before the mode is confirmed changes nothing, but that an invalid one
  -- makes the client disconnect.
  pub process_message-unconfirmed :
      (m : Message Value) (c : StratumClient)
      → m.is_notification ≡ true
      → c.connection.stratum_mode_confirmed ≡ false
      → process_message json difficulty_target m c
        ≡ (if is_invalid json m then quit c else returned c)
  unfolding process_message
  process_message-unconfirmed m c notice unconfirmed = rw (notice, unconfirmed) refl

  -- A job for a client that is not subscribed, or that has a job of the same transmission, changes nothing.
  pub notify-discards :
      (m : Message Value) (c : StratumClient)
      → (not (is_subscribed c) || c.new_job_processed) ≡ true
      → notify json m c ≡ returned c
  unfolding notify
  notify-discards m c late = rw late refl
