-- ===== src/Getwork/Refused.antt =====
-- A pool that cannot be reached.
use quai_gpu_miner_archive.Getwork.{
  GetworkClient, Outcome, and_then, returned, crashed, Text, Request, Call, call, other_error,
  async_connect, async_resolve, timer_cancel,
}
use quai_gpu_miner_archive.Getwork.Connecting.{
  connect, handle_resolve, handle_connect, begin_connect, disconnect, send, get_work,
}
use quai_gpu_miner_archive.Prelude.{
  ℕ, ◌≡◌, refl, ap, ◌∙◌, Bool, true, false, none, some, List, [], ◌∷◌, ◌++◌, arith,
}

-- The addresses are tried, the last call first.
abbrev tries : List ℕ → List Call → List Call
tries [] calls = calls
tries (endpoint ∷ rest) calls = tries rest (async_connect endpoint ∷ calls)

module _ {Value : Type 0} (parse : Text → Bool × Value) where
  -- One connection after the other fails.
  abbrev pub refusals : List ℕ → Outcome (GetworkClient Value) → Outcome (GetworkClient Value)
  refusals [] o = o
  refusals (endpoint ∷ rest) o =
      refusals rest (and_then o (λ c. handle_connect parse other_error c.socket_open c))

  begin_connect-handle_connect :
      (endpoint : ℕ) (rest : List ℕ) (c : GetworkClient Value)
      → c.endpoints ≡ endpoint ∷ rest
      → and_then (begin_connect c) (λ d. handle_connect parse other_error d.socket_open d)
        ≡ begin_connect (record (call (async_connect endpoint) c) { endpoints = rest })
  unfolding begin_connect handle_connect
  begin_connect-handle_connect endpoint rest c h = ground arith

  refusals-begin_connect :
      (endpoints : List ℕ) (c : GetworkClient Value)
      → c.endpoints ≡ endpoints
      → refusals endpoints (begin_connect c)
        ≡ disconnect (record c { endpoints = []; calls = tries endpoints c.calls })
  unfolding begin_connect
  refusals-begin_connect [] c h = ap (λ es. begin_connect (record c { endpoints = es })) h
  refusals-begin_connect (endpoint ∷ rest) c h =
      ap (refusals rest) (begin_connect-handle_connect endpoint rest c h)
      ∙ refusals-begin_connect rest (record (call (async_connect endpoint) c) { endpoints = rest })
          refl

  -- The client that asks for an address.
  abbrev resolving : GetworkClient Value → GetworkClient Value
  resolving c =
      call async_resolve (record (call timer_cancel c) { connecting = true; endpoints = [] })

  module _ (write : Request → Text) where
    connect-named :
        (address : ℕ) (c : GetworkClient Value)
        → c.connecting ≡ false
        → c.connection.named ≡ true
        → connect write address c ≡ returned (resolving c)
    unfolding connect
    connect-named address c h named = ground arith

    handle_resolve-idle :
        (found : List ℕ) (c : GetworkClient Value)
        → c.tx_pending ≡ false
        → handle_resolve write (some found) c
          ≡ begin_connect (record c {
            endpoints = c.endpoints ++ found;
            tx_queue = c.tx_queue ++ write get_work ∷ [];
            tx_pending = true;
          })
    unfolding handle_resolve send
    handle_resolve-idle found c h = rw h refl

    disconnect-none : (c : GetworkClient Value) → c.session ≡ none → disconnect c ≡ crashed
    unfolding disconnect
    disconnect-none c h = ground arith

    handle_resolve-none :
        (c : GetworkClient Value) → c.session ≡ none → handle_resolve write none c ≡ crashed
    unfolding handle_resolve
    handle_resolve-none c h = disconnect-none c h

    -- An idle client without a session that connects to a named host uses its null session if the host's
    -- name is not resolved, and as well if it is and none of the addresses, however many, accepts.
    pub connect-unreachable :
        (address : ℕ) (c : GetworkClient Value)
        → c.connecting ≡ false
        → c.tx_pending ≡ false
        → c.session ≡ none
        → c.connection.named ≡ true
        → (and_then (connect write address c) (handle_resolve write none) ≡ crashed)
          × ((found : List ℕ)
              → refusals found
                  (and_then (connect write address c) (handle_resolve write (some found)))
                ≡ crashed)
    connect-unreachable address c connecting pending no_session named = (
      rw (connect-named address c connecting named) (handle_resolve-none (resolving c) no_session),
      λ found.
          rw
            (
              connect-named address c connecting named,
              handle_resolve-idle found (resolving c) pending,
            )
            (refusals-begin_connect found _ refl ∙ disconnect-none _ no_session),
    )
