-- ===== src/Stratum/Jobs.antt =====
-- The jobs that the pool notifies, in `processResponse` of
-- libpoolprotocols/stratum/EthStratumClient.cpp. A block or an epoch of 2 ^ 31 or more, which is
-- negative as an `int`, is told from no other negative one.
use quai_gpu_miner_archive.Stratum.{
  Json, StratumClient, Text, WorkPackage, Outcome, returned, escaped, attempt, with_session,
  is_subscribed,
}
use quai_gpu_miner_archive.Stratum.Messages.{Message, is_blank, or_null, text_at}
use quai_gpu_miner_archive.Stratum.Logins.{has}
use quai_gpu_miner_archive.Stratum.Texts.{codes, same_text, stoul, strtoul, h256, pad_left}
use quai_gpu_miner_archive.Ethash.Hash.{bytes}
use quai_gpu_miner_archive.CommonData.{to_hex, add}
use quai_gpu_miner_archive.Prelude.{
  ℕ, ◌+◌, ◌-◌, ◌%◌, ◌^◌, true, not, ◌&&◌, ◌||◌, Option, none, some, ◌∷◌, ◌++◌, ltb, ◌==◌,
  if◌then◌else◌, length, take, drop, replicate,
}

-- A number stored to an `int`; −1 is `none`.
abbrev pub to_int : ℕ → Option ℕ
to_int n = if ltb (n % 2 ^ 32) (2 ^ 31) then some (n % 2 ^ 32) else none

abbrev pub set_work : (WorkPackage → WorkPackage) → StratumClient → StratumClient
set_work change c = record c { current = change c.current }

-- The work is complete: it is dispatched at the end of the transmission.
abbrev pub job_ready : StratumClient → StratumClient
job_ready c = record c { current_timestamp = c.now; new_job_processed = true }

-- "coinmine.pl fix": `none` is the exception of `substr`.
abbrev pub fix_target : Text → Option Text
fix_target target =
    if ltb (length target) 66
    then (if ltb (length target) 2
        then none
        else some (48 ∷ 120 ∷ replicate (66 - length target) 48 ++ drop 2 target))
    else some target

module _ {Value : Type 0} (json : Json Value) where
  -- `mining.notify` of EthereumStratum/1.0.0, of the parameters.
  unfoldable pub notify_nicehash : Value → StratumClient → Outcome
  notify_nicehash prm c = attempt (text_at json prm 1) c (λ seed.
      attempt (text_at json prm 2) c (λ header. attempt (text_at json prm 3) c (λ height.
        if is_blank header || is_blank seed
        then returned c
        else attempt (h256 seed) c (λ seed_hash.
          let c1 = set_work (λ w. record w { seed = seed_hash }) c in
          attempt (h256 header) c1 (λ header_hash. with_session c1 (λ session. returned (
            job_ready (
              set_work
                (λ w. record w {
                  header = header_hash;
                  boundary = session.next_work_boundary;
                  start_nonce = session.extra_nonce;
                  ex_size_bytes = session.extra_nonce_size_bytes;
                  block = to_int (strtoul height);
                })
                c1))))))))

  -- The three hashes of a job of Stratum and Eth-Proxy.
  unfoldable pub notify_hashes : Text → Text → Text → StratumClient → Outcome
  notify_hashes header seed target c = attempt (fix_target target) c (λ fixed.
      attempt (h256 seed) c (λ seed_hash.
        let c1 = set_work (λ w. record w { seed = seed_hash }) c in
        attempt (h256 header) c1 (λ header_hash.
          let c2 = set_work (λ w. record w { header = header_hash }) c1 in
          attempt (h256 fixed) c2 (λ boundary.
            returned (job_ready (set_work (λ w. record w { boundary = boundary }) c2))))))

  -- The job whose parameters go on with a block number. The exception for one out of range is a
  -- pointer, which no handler catches.
  unfoldable pub notify_block : Text → Text → Text → Text → StratumClient → Outcome
  unfolding notify_hashes
  notify_block header seed target height c = elim (stoul height) [
    | none ↦ notify_hashes header seed target c
    | some n ↦ elim (to_int n) [
      | none ↦ notify_hashes header seed target c
      | some block ↦
          let told = set_work (λ w. record w { block = some block }) c in
          if ltb 157680000 block then escaped told else notify_hashes header seed target told
    ]
  ]

  -- `mining.notify` of Stratum and Eth-Proxy: the parameters from `idx` on.
  unfoldable pub notify_stratum : Value → ℕ → StratumClient → Outcome
  unfolding notify_block
  notify_stratum prm idx c = attempt (text_at json prm idx) c (λ header.
      attempt (text_at json prm (idx + 1)) c (λ seed.
        attempt (text_at json prm (idx + 2)) c (λ target.
          let c1 = set_work (λ w. record w { block = none }) c in
          if ltb (idx + 3) (length (json.elements prm))
          then attempt (text_at json prm (idx + 3)) c1 (λ height.
            if same_text (take 2 height) (codes "0x")
            then notify_block header seed target height c1
            else notify_hashes header seed target c1)
          else notify_hashes header seed target c1)))

  -- `mining.notify` of the modes before EthereumStratum/2.0.0.
  unfoldable pub notify : Message Value → StratumClient → Outcome
  unfolding notify_nicehash notify_stratum
  notify m c =
      let mode = c.connection.stratum_mode in
      let in_result = (mode == 1) && has json m.field (codes "result") in
      let prm = if in_result then m.result else or_null json (m.field (codes "params")) in
      if not (is_subscribed c) || c.new_job_processed
      then returned c
      else if json.is_array prm && not (json.is_empty prm)
      then attempt (text_at json prm 0) c (λ job.
        let c1 = set_work (λ w. record w { job = job }) c in
        if mode == 2
        then notify_nicehash prm c1
        else notify_stratum prm (if in_result then 0 else 1) c1)
      else returned c

  -- `mining.notify` of EthereumStratum/2.0.0.
  unfoldable pub notify_v2 : Message Value → StratumClient → Outcome
  notify_v2 m c = elim c.session [
    | none ↦ returned c
    | some session ↦ elim (m.field (codes "params")) [
      | none ↦ returned c
      | some prm ↦
          if not session.first_mining_set
            || not (json.is_array prm)
            || not (length (json.elements prm) == 4)
          then returned c
          else attempt (text_at json prm 0) c (λ job.
            let c1 = set_work (λ w. record w { job = job }) c in
            attempt (text_at json prm 1) c1 (λ height. attempt (stoul height) c1 (λ n.
              let c2 = set_work (λ w. record w { block = to_int n }) c1 in
              attempt (text_at json prm 2) c2 (λ header.
                attempt (h256 (48 ∷ 120 ∷ pad_left header 64 48)) c2 (λ header_hash.
                  let c3 = set_work (λ w. record w { header = header_hash }) c2 in
                  attempt (h256 (to_hex (bytes session.next_work_boundary) 2 add)) c3 (λ boundary.
                    returned (
                      job_ready (
                        set_work
                          (λ w. record w {
                            boundary = boundary;
                            epoch = to_int session.epoch;
                            start_nonce = session.extra_nonce;
                            ex_size_bytes = session.extra_nonce_size_bytes;
                          })
                          c3))))))))
    ]
  ]
