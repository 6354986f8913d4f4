-- ===== src/Stratum/Sessions/Replies.antt =====
-- The answers to requests keep the invariant of the client's state.
use quai_gpu_miner_archive.Stratum.{texts, StratumClient, Json, Session, null_value}
use quai_gpu_miner_archive.Stratum.Messages.{Message}
use quai_gpu_miner_archive.Stratum.Pleas.{dequeue_response_plea}
use quai_gpu_miner_archive.Stratum.Sending.{send}
use quai_gpu_miner_archive.Stratum.Texts.{codes}
use quai_gpu_miner_archive.Stratum.Logins.{
  ask_authorization, login_answer, refuse, confirm, is_hello_answer, is_nicehash_answer,
  subscribe_request, subscribed_session, authorized_session,
}
use quai_gpu_miner_archive.Stratum.Replies.{
  subscribe_answer, authorize_answer, authorize_answer_v2, solution_answer, stray_answer,
  process_reply, full_text, success_of_result, error_code, account, starts_with_2,
}
use quai_gpu_miner_archive.Stratum.Sessions.{
  IsConsistent, Leaves, Leaves-attempt, Leaves-with_session, IsConsistent-send,
  IsConsistent-enqueue, IsConsistent-dequeue,
}
use quai_gpu_miner_archive.Prelude.{
  ℕ, ◌-◌, refl, inl, inr, Bool, true, false, not, ◌&&◌, some, [], arith, ◌==◌, Option-cases,
  if-both,
}

ask_authorization-IsConsistent :
    (jsonrpc : Bool) (c : StratumClient)
    → IsConsistent c
    → IsConsistent (ask_authorization jsonrpc c)
unfolding ask_authorization
ask_authorization-IsConsistent jsonrpc c h =
    IsConsistent-send _ _ (IsConsistent-enqueue (record c { auth_pending = true }) h)

refuse-Leaves : (c : StratumClient) → IsConsistent c → Leaves (refuse c)
refuse-Leaves c h = if-both Leaves c.connection.stratum_mode_confirmed _ _ h h

confirm-IsConsistent :
    (mode : ℕ) (setup : Session → Session) (c : StratumClient)
    → IsConsistent c
    → IsConsistent (confirm mode setup c)
confirm-IsConsistent mode setup c (has, counted) = ((refl, λ e. refl), counted)

account-Leaves :
    (ok stale : Bool) (delay miner_index : ℕ) (c : StratumClient)
    → IsConsistent c
    → Leaves (account ok stale delay miner_index c)
account-Leaves true stale delay miner_index c h = h
account-Leaves false stale delay miner_index c h = h

module _ {Value : Type 0} (json : Json Value) where
  login_answer-Leaves :
      (m : Message Value) (c : StratumClient) → IsConsistent c → Leaves (login_answer json m c)
  unfolding login_answer
  login_answer-Leaves m c h =
      if-both Leaves (not m.is_success && not c.connection.stratum_mode_confirmed) _ _ h (
        if-both Leaves (c.connection.stratum_mode == 3) _ _
          (Leaves-attempt (is_hello_answer json m.result) c _ h (λ ok.
            if-both Leaves ok _ _
              (IsConsistent-send _ _
                (IsConsistent-enqueue (confirm 3 (λ s. s) c) ((refl, λ e. refl), h.1)))
              (refuse-Leaves c h)))
          (if-both Leaves (c.connection.stratum_mode == 2) _ _
            (Leaves-attempt (is_nicehash_answer json m.result) c _ h (λ ok.
              if-both Leaves ok _ _
                (ask_authorization-IsConsistent false
                  (send (subscribe_request (codes "mining.extranonce.subscribe") (texts []))
                    (confirm 2 subscribed_session c))
                  (IsConsistent-send _ (confirm 2 subscribed_session c) ((refl, λ e. refl), h.1)))
                (refuse-Leaves c h)))
            (if-both Leaves (c.connection.stratum_mode == 1) _ _
              (if-both Leaves m.is_success _ _
                (IsConsistent-send _ (confirm 1 authorized_session c) ((refl, λ e. refl), h.1))
                (refuse-Leaves c h))
              (if-both Leaves (c.connection.stratum_mode == 0) _ _
                (if-both Leaves m.is_success _ _
                  (ask_authorization-IsConsistent true (confirm 0 subscribed_session c)
                    ((refl, λ e. refl), h.1))
                  (refuse-Leaves c h))
                (IsConsistent-send null_value c h)))))

  subscribe_answer-Leaves :
      (m : Message Value) (c : StratumClient) → IsConsistent c → Leaves (subscribe_answer json m c)
  unfolding subscribe_answer
  subscribe_answer-Leaves m c h = elim (Option-cases (full_text json m.result)) [
    | inl e ↦ rw (subscribe_answer, e) h
    | inr (text, e) ↦
        rw (subscribe_answer, e)
          (Leaves-with_session c _ h (λ session can.
            ask_authorization-IsConsistent false
              (record c {
                session = some (record session { session_id = text; subscribed = true });
              })
              can))
  ]

  authorize_answer-Leaves :
      (m : Message Value) (c : StratumClient) → IsConsistent c → Leaves (authorize_answer json m c)
  unfolding authorize_answer
  authorize_answer-Leaves m c h =
      Leaves-attempt (success_of_result json m) c _ h
        (λ ok. Leaves-with_session c _ h (λ session can. if-both Leaves ok _ _ can can))

  authorize_answer_v2-Leaves :
      (m : Message Value) (c : StratumClient)
      → IsConsistent c
      → Leaves (authorize_answer_v2 json m c)
  unfolding authorize_answer_v2
  authorize_answer_v2-Leaves m c h = elim (Option-cases (full_text json m.result)) [
    | inl e ↦ rw (authorize_answer_v2, e) (if-both Leaves (not m.is_success) _ _ h h)
    | inr (text, e) ↦
        rw (authorize_answer_v2, e)
          (if-both Leaves (not m.is_success) _ _ h (Leaves-with_session c _ h (λ session can. can)))
  ]

  solution_answer-Leaves :
      (m : Message Value) (delay : ℕ) (c : StratumClient)
      → IsConsistent c
      → Leaves (solution_answer json m delay c)
  unfolding solution_answer
  solution_answer-Leaves m delay c h =
      if-both Leaves (c.connection.stratum_mode == 3) _ _
        (if-both Leaves m.is_success _ _ (account-Leaves true false delay (m.id - 40) c h) (
          Leaves-attempt (error_code json m) c _ h (λ text.
            account-Leaves (starts_with_2 text) (starts_with_2 text) delay (m.id - 40) c h)))
        (Leaves-attempt (success_of_result json m) c _ h
          (λ ok. account-Leaves ok false delay (m.id - 40) c h))

  stray_answer-Leaves :
      (m : Message Value) (c : StratumClient) → IsConsistent c → Leaves (stray_answer json m c)
  unfolding stray_answer
  stray_answer-Leaves m c h = ground arith

  pub process_reply-Leaves :
      (m : Message Value) (c : StratumClient) → IsConsistent c → Leaves (process_reply json m c)
  unfolding process_reply
  process_reply-Leaves m c h =
      let answered = (dequeue_response_plea c).1 in
      let k = IsConsistent-dequeue c h in
      ground (
        arith,
        login_answer-Leaves m answered k,
        subscribe_answer-Leaves m answered k,
        authorize_answer-Leaves m answered k,
        authorize_answer_v2-Leaves m answered k,
        solution_answer-Leaves m (dequeue_response_plea c).0 answered k,
        stray_answer-Leaves m c h,
      )
