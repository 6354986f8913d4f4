-- ===== src/Stratum/Notices.antt =====
-- The notifications of the pool, in `processResponse` of
-- libpoolprotocols/stratum/EthStratumClient.cpp, and `processExtranonce`. The boundary of a
-- difficulty, which is computed in floating point, is an argument; `none` is an exception of the
-- conversion.
use quai_gpu_miner_archive.Stratum.Jobs.{notify, notify_v2}
use quai_gpu_miner_archive.Stratum.Sending.{send}
use quai_gpu_miner_archive.Stratum.Logins.{quit}
use quai_gpu_miner_archive.Stratum.{
  Json, StratumClient, Text, Outcome, returned, attempt, with_session, Session, version_answer,
  unknown_answer,
}
use quai_gpu_miner_archive.Stratum.Messages.{Message, is_blank, or_null, text_of, text_at}
use quai_gpu_miner_archive.Stratum.Texts.{codes, same_text, stoul, stoi, h256, pad_left}
use quai_gpu_miner_archive.Ethash.Hash.{Hash}
use quai_gpu_miner_archive.Prelude.{
  ◌-◌, ◌%◌, ◌^◌, true, not, ◌&&◌, ◌||◌, Option, none, some, ◌∷◌, ◌++◌, ◌==◌, if◌then◌else◌, length,
  get_elem?, take, replicate,
}

-- `enonce.resize(16, '0')`.
abbrev pub resize_16 : Text → Text
resize_16 enonce = take 16 (enonce ++ replicate (16 - length enonce) 48)

unfoldable pub process_extranonce : Text → StratumClient → Outcome
process_extranonce enonce c = with_session c (λ session.
    let sized = record session { extra_nonce_size_bytes = length enonce } in
    let told = record c { session = some sized } in
    attempt (stoul (resize_16 enonce)) told
      (λ n. returned (record c { session = some (record sized { extra_nonce = n }) })))

-- The code tests that the text is not empty.
abbrev pub extranonce_if_any : Text → StratumClient → Outcome
extranonce_if_any enonce c = if is_blank enonce then returned c else process_extranonce enonce c

module _ {Value : Type 0} (json : Json Value) (difficulty_target : Option Value → Option Hash) where
  -- `mining.set_difficulty`.
  unfoldable pub set_difficulty : Message Value → StratumClient → Outcome
  set_difficulty m c =
      let prm = or_null json (m.field (codes "params")) in
      if json.is_array prm
      then attempt (difficulty_target (get_elem? (json.elements prm) 0)) c (λ boundary.
        with_session c (λ session.
          returned
            (record c { session = some (record session { next_work_boundary = boundary }) })))
      else returned c

  -- `mining.set_extranonce`.
  unfoldable pub set_extranonce : Message Value → StratumClient → Outcome
  unfolding process_extranonce
  set_extranonce m c =
      let prm = or_null json (m.field (codes "params")) in
      if json.is_array prm
      then attempt (text_at json prm 0) c (λ enonce. extranonce_if_any enonce c)
      else returned c

  abbrev pub put_session : Session → StratumClient → StratumClient
  put_session session c = record c { session = some session }

  -- A member that is not empty changes the session.
  abbrev pub set_if_any :
      {A : Type 0}
      → Text
      → (Text → Option A)
      → (A → Session → Session)
      → StratumClient
      → Session
      → (Session → Outcome)
      → Outcome
  set_if_any text convert change c session next =
      if is_blank text
      then next session
      else attempt (convert text) (put_session session c) (λ a. next (change a session))

  -- The members of `mining.set`, with the session they change.
  unfoldable pub set_members : (Text → Option Value) → StratumClient → Session → Outcome
  unfolding process_extranonce
  set_members field c s0 =
      attempt (text_of json (field (codes "timeout"))) (put_session s0 c) (λ timeout.
        attempt (text_of json (field (codes "epoch"))) (put_session s0 c) (λ epoch.
          attempt (text_of json (field (codes "target"))) (put_session s0 c) (λ target.
            set_if_any timeout stoi (λ n s. record s { timeout = n }) c s0
              (λ s1.
                set_if_any epoch stoul (λ n s. record s { epoch = n % 2 ^ 32 }) c s1
                  (λ s2.
                    set_if_any target (λ t. h256 (48 ∷ 120 ∷ pad_left t 64 48))
                      (λ h s. record s { next_work_boundary = h }) c s2
                      (λ s3.
                        attempt
                          (elim (field (codes "algo")) [
                            | none ↦ some (codes "ethash")
                            | some v ↦ json.as_string v
                          ])
                          (put_session s3 c)
                          (λ algo.
                            let c4 = put_session (record s3 { algo = algo }) c in
                            attempt (text_of json (field (codes "extranonce"))) c4
                              (λ enonce. extranonce_if_any enonce c4))))))))

  -- `mining.set`.
  unfoldable pub set_v2 : Message Value → StratumClient → Outcome
  unfolding set_members
  set_v2 m c = elim (m.field (codes "params")) [
    | none ↦ returned c
    | some prm ↦
        if not (json.is_object prm) || json.is_empty prm
        then returned c
        else with_session c (λ session.
          let told = record session { first_mining_set = true } in
          attempt (json.object prm) (put_session told c) (λ field. set_members field c told))
  ]

  -- A notification by its method.
  unfoldable pub process_notice : Message Value → StratumClient → Outcome
  unfolding notify notify_v2 set_difficulty set_extranonce set_v2
  process_notice m c =
      let mode = c.connection.stratum_mode in
      if same_text m.method (codes "mining.notify")
      then (if mode == 3 then notify_v2 json m c else notify json m c)
      else if same_text m.method (codes "mining.set_difficulty") && (mode == 2)
      then set_difficulty m c
      else if same_text m.method (codes "mining.set_extranonce") && (mode == 2)
      then set_extranonce m c
      else if same_text m.method (codes "mining.set") && (mode == 3)
      then set_v2 m c
      else if same_text m.method (codes "mining.bye") && (mode == 3)
      then quit c
      else if same_text m.method (codes "client.get_version")
      then returned (send (version_answer m.rpc_ver m.id c.agent) c)
      else returned (send (unknown_answer m.rpc_ver m.id) c)
