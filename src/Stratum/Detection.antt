-- ===== src/Stratum/Detection.antt =====
-- The autodetection of the pool's protocol.
use quai_gpu_miner_archive.Stratum.{
  async_shutdown, Json, post_disconnect, StratumClient, Connection, Outcome, returned, and_then,
  set_stratum_mode, call, async_connect,
}
use quai_gpu_miner_archive.Stratum.Messages.{Message}
use quai_gpu_miner_archive.Stratum.Replies.{process_reply}
use quai_gpu_miner_archive.Stratum.Logins.{login_answer}
use quai_gpu_miner_archive.Stratum.Frames.{
  core, core-send, IsReturned, IsReturned-and_then, IsReturned-mono,
}
use quai_gpu_miner_archive.Stratum.Connecting.{
  disconnect_finalize, on_ssl_shutdown_completed, start_connect, connect_handler, disconnect,
  log_in, choose_mode,
}
use quai_gpu_miner_archive.Stratum.Pleas.{
  dequeue_response_plea, enqueue_response_plea, clear_response_pleas,
}
use quai_gpu_miner_archive.Prelude.{
  ℕ, zero, suc, ◌-◌, ◌≤◌, ◌≡◌, refl, sym, ap, ◌∙◌, subst, ◌≢◌, ◌⊎◌, inl, inr, Bool, true, false,
  not, ◌&&◌, some, List, [], ◌∷◌, arith, ltb, ◌==◌, if◌then◌else◌, Bool-cases, if-both,
}

-- The disconnect that was posted. That of a TLS connection shuts its protocol down first.
abbrev disconnected : StratumClient → StratumClient
disconnected c =
    let finished : StratumClient = disconnect_finalize (on_ssl_shutdown_completed (disconnect c)) in
    if c.connection.secure then finished else disconnect c

module _ {Value : Type 0} (json : Json Value) where
  -- A connection is established, its first request is sent and answered, and the client makes the
  -- disconnect that it posts then.
  abbrev pub failed_round : Message Value → StratumClient → Outcome
  failed_round m c =
      and_then (connect_handler false false (start_connect c))
        (λ c'. and_then (process_reply json m c') (λ d. returned (disconnected d)))

  -- The answers by the number of the round.
  abbrev pub failed_rounds : (ℕ → Message Value) → ℕ → StratumClient → Outcome
  failed_rounds answers zero c = returned c
  failed_rounds answers (suc n) c = and_then (failed_rounds answers n c) (failed_round (answers n))

-- An answer to the first request that is an error.
abbrev pub IsRefusal : {Value : Type 0} → Message Value → Type 0
IsRefusal m = (m.id ≡ 1) × (m.is_success ≡ false)

-- A connection that is to detect the protocol.
abbrev pub IsDetecting : Connection → Type 0
IsDetecting uri =
    (uri.version ≡ 999) × (uri.stratum_mode_confirmed ≡ false) × (uri.unrecoverable ≡ false)

-- A client that is about to connect it.
abbrev pub IsFresh : StratumClient → Type 0
IsFresh c =
    (c.connecting ≡ false)
    × (c.disconnecting ≡ false)
    × (c.endpoints ≢ [])
    × IsDetecting c.connection

-- The mode that is tried in this round.
abbrev pub tried : ℕ → ℕ
tried mode = if mode == 999 then 3 else mode

abbrev AfterRound : ℕ → StratumClient → Type 0
AfterRound zero c' = c'.connection.unrecoverable ≡ true
AfterRound (suc n) c' = IsFresh c' × (c'.connection.stratum_mode ≡ n)

choose_mode-if :
    (b : Bool) (c : StratumClient)
    → c.connection.stratum_mode_confirmed ≡ false
    → (if b then set_stratum_mode 3 false c else c)
      ≡ set_stratum_mode (if b then 3 else c.connection.stratum_mode) false c
choose_mode-if true c unconfirmed = refl
choose_mode-if false c unconfirmed =
    ap (λ f. set_stratum_mode c.connection.stratum_mode f c) unconfirmed

choose_mode-tried :
    (c : StratumClient)
    → IsDetecting c.connection
    → choose_mode c ≡ set_stratum_mode (tried c.connection.stratum_mode) false c
choose_mode-tried c (version, unconfirmed, usable) =
    untested _ _ _ (ltb c.connection.version 999) c.connection.stratum_mode_confirmed
      (c.connection.stratum_mode == 999) (ap (λ v. ltb v 999) version) unconfirmed
    ∙ choose_mode-if (c.connection.stratum_mode == 999) c unconfirmed
  where
    untested :
        (x y z : StratumClient) (v f b : Bool)
        → v ≡ false
        → f ≡ false
        → (if v then x else if not f && b then y else z) ≡ (if b then y else z)
    untested x y z v f b e g = rw (e, g) refl

-- What is left of the client by the first request, but for what it sends.
abbrev logged_in : StratumClient → StratumClient
logged_in c =
    enqueue_response_plea
      (set_stratum_mode (tried c.connection.stratum_mode) false (clear_response_pleas c))

core-log_in : (c : StratumClient) → IsDetecting c.connection → core (log_in c) ≡ core (logged_in c)
unfolding log_in
core-log_in c detecting =
    core-send _ _
    ∙ ap (λ d. core (enqueue_response_plea d))
        (choose_mode-tried (clear_response_pleas (record c { send_buffer = [] })) detecting)

-- What is left by the finished disconnect, without the flags that it clears.
abbrev IsOver : StratumClient → Type 0
IsOver c =
    (c.connecting ≡ false)
    × (c.endpoints ≢ [])
    × (c.connection.responds ≡ true)
    × IsDetecting c.connection

abbrev IsUp : StratumClient → Type 0
IsUp c = (c.disconnecting ≡ false) × (c.socket ≡ some true) × IsOver c

AfterRound-disconnect_finalize :
    (mode : ℕ) (c : StratumClient)
    → c.connection.stratum_mode ≡ mode
    → IsOver c
    → AfterRound mode (disconnect_finalize c)
unfolding disconnect_finalize
AfterRound-disconnect_finalize zero c at_mode
      (idle, some_left, answers, (version, unconfirmed, usable)) =
    simp (at_mode, answers, unconfirmed, usable)
AfterRound-disconnect_finalize (suc n) c at_mode
      (idle, some_left, answers, (version, unconfirmed, usable)) =
    simp (at_mode, answers, unconfirmed, usable, lower)
      ((idle, refl, some_left, (version, refl, refl)), omega arith)
  where
    lower : ltb 0 (suc n) ≡ true
    lower = ground arith

-- The client that is to finish its disconnect.
abbrev closing : Bool → StratumClient → StratumClient
closing secure c =
    let going : StratumClient = record c { disconnecting = true; connected = false } in
    if secure
    then on_ssl_shutdown_completed (enqueue_response_plea (call async_shutdown going))
    else record going { socket = some false }

disconnected-closing :
    (c : StratumClient)
    → c.disconnecting ≡ false
    → c.socket ≡ some true
    → disconnected c ≡ disconnect_finalize (closing c.connection.secure c)
unfolding disconnect
disconnected-closing c calm up = elim (Bool-cases c.connection.secure) [
  | inl tls ↦ simp (calm, up, tls)
  | inr plain ↦ simp (calm, up, plain)
]

AfterRound-disconnected :
    (mode : ℕ) (c : StratumClient)
    → c.connection.stratum_mode ≡ mode
    → IsUp c
    → AfterRound mode (disconnected c)
AfterRound-disconnected mode c at_mode (calm, up, over) =
    subst (AfterRound mode) (sym (disconnected-closing c calm up)) (
      if-both (λ d. AfterRound mode (disconnect_finalize d)) c.connection.secure _ _
        (AfterRound-disconnect_finalize mode
          (on_ssl_shutdown_completed (
            enqueue_response_plea
              (call async_shutdown (record c { disconnecting = true; connected = false }))))
          at_mode over)
        (AfterRound-disconnect_finalize mode
          (record c { disconnecting = true; connected = false; socket = some false }) at_mode over))

-- The client once the connection stands, before its first request.
abbrev established : ℕ → StratumClient → StratumClient
established endpoint c =
    record (call (async_connect endpoint) (enqueue_response_plea (clear_response_pleas c))) {
      solution_submitted_max_id = 0;
      socket = some true;
      connecting = false;
      connected = true;
      connection = record c.connection { responds = true };
      message = [];
      tx_queue = [];
    }

connect_handler-log_in :
    (c : StratumClient) (endpoint : ℕ) (rest : List ℕ)
    → c.endpoints ≡ endpoint ∷ rest
    → c.connecting ≡ false
    → connect_handler false false (start_connect c) ≡ returned (log_in (established endpoint c))
unfolding start_connect connect_handler
connect_handler-log_in c endpoint rest some_left idle = elim (Bool-cases c.connection.secure) [
  | inl tls ↦ simp (idle, some_left, tls)
  | inr plain ↦ simp (idle, some_left, plain)
]

module _ {Value : Type 0} (json : Json Value) where
  process_reply-IsRefusal :
      (m : Message Value) (c : StratumClient)
      → IsRefusal m
      → c.connection.stratum_mode_confirmed ≡ false
      → process_reply json m c ≡ returned (call post_disconnect (dequeue_response_plea c).1)
  unfolding process_reply login_answer
  process_reply-IsRefusal m c (first, bad) unconfirmed = simp (first, bad, unconfirmed)

  -- The client before the disconnect.
  abbrev refused : ℕ → StratumClient → StratumClient
  refused endpoint c =
      call post_disconnect (dequeue_response_plea (log_in (established endpoint c))).1

  failed_round-disconnected :
      (m : Message Value) (c : StratumClient) (endpoint : ℕ) (rest : List ℕ)
      → c.endpoints ≡ endpoint ∷ rest
      → IsFresh c
      → IsRefusal m
      → failed_round json m c ≡ returned (disconnected (refused endpoint c))
  failed_round-disconnected m c endpoint rest some_left (idle, calm, left, detecting) bad =
      ap
        (λ o.
          and_then o (λ c'. and_then (process_reply json m c') (λ d. returned (disconnected d))))
        (connect_handler-log_in c endpoint rest some_left idle)
      ∙ ap (λ o. and_then o (λ d. returned (disconnected d)))
          (process_reply-IsRefusal m (log_in (established endpoint c)) bad (
            ap (λ d. d.connection.stratum_mode_confirmed)
              (core-log_in (established endpoint c) detecting)))

  refused-IsUp : (endpoint : ℕ) (c : StratumClient) → IsFresh c → IsUp (refused endpoint c)
  refused-IsUp endpoint c (idle, calm, left, detecting) =
      let e = core-log_in (established endpoint c) detecting in
      (
        ap (λ d. d.disconnecting) e ∙ calm,
        ap (λ d. d.socket) e,
        (
          ap (λ d. d.connecting) e,
          (λ f. left (sym (ap (λ d. d.endpoints) e) ∙ f)),
          ap (λ d. d.connection.responds) e,
          (
            ap (λ d. d.connection.version) e ∙ detecting.0,
            ap (λ d. d.connection.stratum_mode_confirmed) e,
            ap (λ d. d.connection.unrecoverable) e ∙ detecting.2,
          ),
        ),
      )

  -- A round with a client that is fresh tries the next mode, or finds the connection unrecoverable.
  failed_round-AfterRound :
      (m : Message Value) (c : StratumClient)
      → IsFresh c
      → IsRefusal m
      → IsReturned (AfterRound (tried c.connection.stratum_mode)) (failed_round json m c)
  failed_round-AfterRound m c (idle, calm, left, detecting) bad = elim (List-cases c.endpoints) [
    | inl none_left ↦ absurd (left none_left)
    | inr (endpoint, rest, some_left) ↦
        subst (IsReturned (AfterRound (tried c.connection.stratum_mode)))
          (sym (
            failed_round-disconnected m c endpoint rest some_left (idle, calm, left, detecting)
              bad))
          (AfterRound-disconnected (tried c.connection.stratum_mode) (refused endpoint c)
            (ap (λ d. d.connection.stratum_mode) (core-log_in (established endpoint c) detecting))
            (refused-IsUp endpoint c (idle, calm, left, detecting)))
  ]
    where
      List-cases : (xs : List ℕ) → (xs ≡ []) ⊎ ((x : ℕ) × (rest : List ℕ) × (xs ≡ x ∷ rest))
      List-cases [] = inl refl
      List-cases (x ∷ rest) = inr (x, rest, refl)

-- After `n` failed rounds the client is fresh, and the next mode is that of its round.
abbrev pub IsTrying : ℕ → StratumClient → Type 0
IsTrying n c = IsFresh c × (tried c.connection.stratum_mode ≡ 3 - n)

tried-minus : (n : ℕ) → tried (2 - n) ≡ 3 - suc n
tried-minus n = ground arith

module _ {Value : Type 0} (json : Json Value) (answers : ℕ → Message Value)
    (bad : (k : ℕ) → IsRefusal (answers k)) where
  failed_rounds-IsTrying :
      (n : ℕ) (c : StratumClient)
      → n ≤ 3
      → IsFresh c
      → c.connection.stratum_mode ≡ 999
      → IsReturned (IsTrying n) (failed_rounds json answers n c)
  failed_rounds-IsTrying zero c le fresh untested = (fresh, ap tried untested)
  failed_rounds-IsTrying (suc n) c le fresh untested =
      IsReturned-and_then (IsTrying n) (IsTrying (suc n)) (failed_rounds json answers n c)
        (failed_round json (answers n)) (failed_rounds-IsTrying n c (omega arith) fresh untested)
        (λ c' (again, at_mode).
          let o = failed_round json (answers n) c' in
          IsReturned-mono (AfterRound (suc (2 - n))) (IsTrying (suc n)) o
            (subst (λ mode. IsReturned (AfterRound mode) o) (at_mode ∙ step)
              (failed_round-AfterRound json (answers n) c' again (bad n)))
            (λ d (anew, lower). (anew, ap tried lower ∙ tried-minus n)))
    where
      step : 3 - n ≡ suc (2 - n)
      step = omega arith

  -- A client is fresh when it is neither connecting nor disconnecting, has endpoints, and has a connection
  -- that can be used, whose scheme names no mode and whose mode is not confirmed. Let its pool accept each
  -- connection, and the handshake if it uses TLS, and answer each first request with an error, and let
  -- the client make each disconnect that it posts. When no mode has been tried, the client is fresh and
  -- tries the mode 3 − n next after `n` such rounds, up to three, and after the fourth the connection is
  -- unrecoverable.
  pub failed_rounds-unrecoverable :
      (c : StratumClient) (n : ℕ)
      → IsFresh c
      → c.connection.stratum_mode ≡ 999
      → n ≤ 3
      → IsReturned (IsTrying n) (failed_rounds json answers n c)
        × IsReturned (λ c'. c'.connection.unrecoverable ≡ true) (failed_rounds json answers 4 c)
  failed_rounds-unrecoverable c n fresh untested le = (
    failed_rounds-IsTrying n c le fresh untested,
    IsReturned-and_then (IsTrying 3) _ (failed_rounds json answers 3 c)
        (failed_round json (answers 3)) (failed_rounds-IsTrying 3 c (omega arith) fresh untested)
        (λ c' (again, at_mode).
          let o = failed_round json (answers 3) c' in
          subst (λ mode. IsReturned (AfterRound mode) o) at_mode
            (failed_round-AfterRound json (answers 3) c' again (bad 3))),
  )
