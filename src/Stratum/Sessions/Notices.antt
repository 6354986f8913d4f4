-- ===== src/Stratum/Sessions/Notices.antt =====
-- The notifications keep the invariant of the client's state.
use quai_gpu_miner_archive.Stratum.Messages.{or_null, Message, text_at, text_of, is_blank}
use quai_gpu_miner_archive.Stratum.{
  returned, StratumClient, Json, Text, Hash, Session, Outcome, version_answer, unknown_answer,
  is_subscribed,
}
use quai_gpu_miner_archive.Stratum.Sessions.{
  IsConsistent, Leaves, Leaves-attempt, IsConsistent-send, CanTakeSession, Leaves-with_session,
}
use quai_gpu_miner_archive.Stratum.Jobs.{
  notify_nicehash, notify_hashes, notify_block, to_int, notify_stratum, notify, notify_v2,
}
use quai_gpu_miner_archive.Stratum.Notices.{
  process_extranonce, put_session, set_if_any, set_difficulty, set_extranonce, set_members, set_v2,
  process_notice,
}
use quai_gpu_miner_archive.Stratum.Texts.{h256, pad_left, stoul, stoi, same_text, codes}
use quai_gpu_miner_archive.Stratum.Logins.{has}
use quai_gpu_miner_archive.Prelude.{
  ℕ, ◌+◌, ◌%◌, ◌^◌, ◌≡◌, inl, inr, true, not, ◌&&◌, ◌||◌, Option, none, some, ◌∷◌, arith, ltb, ◌==◌,
  if◌then◌else◌, Option-cases, if-both, length, take,
}

process_extranonce-Leaves :
    (enonce : Text) (c : StratumClient) → IsConsistent c → Leaves (process_extranonce enonce c)
unfolding process_extranonce
process_extranonce-Leaves enonce c h = ground arith

module _ {Value : Type 0} (json : Json Value) (difficulty_target : Option Value → Option Hash) where
  notify_nicehash-Leaves :
      (prm : Value) (c : StratumClient)
      → IsConsistent c
      → c.connection.stratum_mode_confirmed ≡ true
      → Leaves (notify_nicehash json prm c)
  unfolding notify_nicehash
  notify_nicehash-Leaves prm c h sure = ground arith

  notify_hashes-Leaves :
      (header seed target : Text) (c : StratumClient)
      → IsConsistent c
      → c.connection.stratum_mode_confirmed ≡ true
      → Leaves (notify_hashes json header seed target c)
  unfolding notify_hashes
  notify_hashes-Leaves header seed target c h sure = ground arith

  notify_block-Leaves :
      (header seed target height : Text) (c : StratumClient)
      → IsConsistent c
      → c.connection.stratum_mode_confirmed ≡ true
      → Leaves (notify_block json header seed target height c)
  unfolding notify_block
  notify_block-Leaves header seed target height c h sure = elim (Option-cases (stoul height)) [
    | inl e ↦ rw (notify_block, e) (notify_hashes-Leaves header seed target c h sure)
    | inr (n, e) ↦ elim (Option-cases (to_int n)) [
      | inl e' ↦ rw (notify_block, e, e') (notify_hashes-Leaves header seed target c h sure)
      | inr (block, e') ↦
          rw (notify_block, e, e')
            (if-both Leaves (ltb 157680000 block) _ _ h (
              notify_hashes-Leaves header seed target
                (record c { current = record c.current { block = some block } }) h sure))
    ]
  ]

  notify_stratum-Leaves :
      (prm : Value) (idx : ℕ) (c : StratumClient)
      → IsConsistent c
      → c.connection.stratum_mode_confirmed ≡ true
      → Leaves (notify_stratum json prm idx c)
  unfolding notify_stratum
  notify_stratum-Leaves prm idx c h sure = Leaves-attempt (text_at json prm idx) c _ h (λ header.
      Leaves-attempt (text_at json prm (idx + 1)) c _ h (λ seed.
        Leaves-attempt (text_at json prm (idx + 2)) c _ h (λ target.
          let c1 : StratumClient = record c { current = record c.current { block = none } } in
          let hashes = notify_hashes-Leaves header seed target c1 h sure in
          if-both Leaves (ltb (idx + 3) (length (json.elements prm))) _ _
            (Leaves-attempt (text_at json prm (idx + 3)) c1 _ h (λ height.
              if-both Leaves (same_text (take 2 height) (codes "0x")) _ _
                (notify_block-Leaves header seed target height c1 h sure) hashes))
            hashes)))

  abbrev job_params : Message Value → StratumClient → Value
  job_params m c =
      if (c.connection.stratum_mode == 1) && has json m.field (codes "result")
      then m.result
      else or_null json (m.field (codes "params"))

  notify-Leaves :
      (m : Message Value) (c : StratumClient)
      → IsConsistent c
      → c.connection.stratum_mode_confirmed ≡ true
      → Leaves (notify json m c)
  unfolding notify
  notify-Leaves m c h sure = if-both Leaves (not (is_subscribed c) || c.new_job_processed) _ _ h (
      if-both Leaves (json.is_array (job_params m c) && not (json.is_empty (job_params m c))) _ _
        (Leaves-attempt (text_at json (job_params m c) 0) c _ h (λ job.
          if-both Leaves (c.connection.stratum_mode == 2) _ _ (notify_nicehash-Leaves _ _ h sure)
            (notify_stratum-Leaves _ _ _ h sure)))
        h)

  notify_v2-Leaves :
      (m : Message Value) (c : StratumClient)
      → IsConsistent c
      → c.connection.stratum_mode_confirmed ≡ true
      → Leaves (notify_v2 json m c)
  unfolding notify_v2
  notify_v2-Leaves m c h sure = ground arith

  set_difficulty-Leaves :
      (m : Message Value) (c : StratumClient)
      → IsConsistent c
      → Leaves (set_difficulty json difficulty_target m c)
  unfolding set_difficulty
  set_difficulty-Leaves m c h = ground arith

  set_extranonce-Leaves :
      (m : Message Value) (c : StratumClient)
      → IsConsistent c
      → Leaves (set_extranonce json difficulty_target m c)
  unfolding set_extranonce
  set_extranonce-Leaves m c h =
      if-both Leaves (json.is_array (or_null json (m.field (codes "params")))) _ _
        (Leaves-attempt (text_at json (or_null json (m.field (codes "params"))) 0) c _ h
          (λ enonce. if-both Leaves (is_blank enonce) _ _ h (process_extranonce-Leaves enonce c h)))
        h

  set_if_any-Leaves :
      {A : Type 0} (text : Text) (convert : Text → Option A) (change : A → Session → Session)
      (c : StratumClient) (session : Session) (next : Session → Outcome)
      → CanTakeSession c
      → ((s : Session) → Leaves (next s))
      → Leaves (set_if_any json difficulty_target text convert change c session next)
  set_if_any-Leaves text convert change c session next h k =
      if-both Leaves (is_blank text) _ _ (k session) (
        Leaves-attempt (convert text) (record c { session = some session }) _ h
          (λ a. k (change a session)))

  set_members-Leaves :
      (field : Text → Option Value) (c : StratumClient) (s0 : Session)
      → CanTakeSession c
      → Leaves (set_members json difficulty_target field c s0)
  unfolding set_members
  set_members-Leaves field c s0 h =
      let c0 = put_session json difficulty_target s0 c in
      Leaves-attempt (text_of json (field (codes "timeout"))) c0 _ h (λ timeout.
        Leaves-attempt (text_of json (field (codes "epoch"))) c0 _ h (λ epoch.
          Leaves-attempt (text_of json (field (codes "target"))) c0 _ h (λ target.
            set_if_any-Leaves timeout stoi (λ n s. record s { timeout = n }) c s0 _ h
              (λ s1.
                set_if_any-Leaves epoch stoul (λ n s. record s { epoch = n % 2 ^ 32 }) c s1 _ h
                  (λ s2.
                    set_if_any-Leaves target (λ t. h256 (48 ∷ 120 ∷ pad_left t 64 48))
                      (λ b s. record s { next_work_boundary = b }) c s2 _ h
                      (λ s3.
                        let algo : Option Text = elim (field (codes "algo")) [
                          | none ↦ some (codes "ethash")
                          | some v ↦ json.as_string v
                        ] in
                        Leaves-attempt algo (put_session json difficulty_target s3 c) _ h (λ name.
                          let c4 =
                            put_session json difficulty_target (record s3 { algo = name }) c in
                          Leaves-attempt (text_of json (field (codes "extranonce"))) c4 _ h
                            (λ enonce.
                              if-both Leaves (is_blank enonce) (returned c4) _ h
                                (process_extranonce-Leaves enonce c4 h)))))))))

  set_v2-Leaves :
      (m : Message Value) (c : StratumClient)
      → IsConsistent c
      → Leaves (set_v2 json difficulty_target m c)
  unfolding set_v2
  set_v2-Leaves m c h = elim (Option-cases (m.field (codes "params"))) [
    | inl e ↦ rw (set_v2, e) h
    | inr (prm, e) ↦
        rw (set_v2, e)
          (if-both Leaves (not (json.is_object prm) || json.is_empty prm) _ _ h (
            Leaves-with_session c _ h (λ session can.
              Leaves-attempt (json.object prm) _ _ can (λ field.
                set_members-Leaves field c (record session { first_mining_set = true }) can))))
  ]

  pub process_notice-Leaves :
      (m : Message Value) (c : StratumClient)
      → IsConsistent c
      → c.connection.stratum_mode_confirmed ≡ true
      → Leaves (process_notice json difficulty_target m c)
  unfolding process_notice
  process_notice-Leaves m c h sure = ground (
    arith,
    notify-Leaves m c,
    notify_v2-Leaves m c,
    set_difficulty-Leaves m c,
    set_extranonce-Leaves m c,
    set_v2-Leaves m c,
    IsConsistent-send (version_answer m.rpc_ver m.id c.agent) c,
    IsConsistent-send (unknown_answer m.rpc_ver m.id) c,
  )
