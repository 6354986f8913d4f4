-- ===== src/Stratum/Frames.antt =====
-- What steps of the client leave as it is, and predicates on how a step ends.
use quai_gpu_miner_archive.Stratum.{
  StratumClient, Line, Outcome, returned, thrown, escaped, crashed, and_then,
}
use quai_gpu_miner_archive.Stratum.Sending.{send, send_socket_data}
use quai_gpu_miner_archive.Prelude.{◌≡◌, refl, true, false, [], ◌∷◌, ◌++◌, if-both}

-- The client without what it sends and calls.
abbrev pub core : StratumClient → StratumClient
core c = record c { tx_queue = []; tx_pending = false; send_buffer = []; calls = [] }

core-send_socket_data : (c : StratumClient) → core (send_socket_data c) ≡ core c
unfolding send_socket_data
core-send_socket_data c = if-both (λ d. core d ≡ core c) _ _ _ refl refl

pub core-send : (line : Line) (c : StratumClient) → core (send line c) ≡ core c
unfolding send
core-send line c =
    if-both (λ d. core d ≡ core c) c.tx_pending _ _ refl
      (core-send_socket_data (record c { tx_queue = c.tx_queue ++ line ∷ []; tx_pending = true }))

-- The step returns, with a state that meets `P`.
abbrev pub IsReturned : (StratumClient → Type 0) → Outcome → Type 0
IsReturned P (returned c) = P c
IsReturned P _ = ⊥

pub IsReturned-and_then :
    (P Q : StratumClient → Type 0) (o : Outcome) (next : StratumClient → Outcome)
    → IsReturned P o
    → ((c : StratumClient) → P c → IsReturned Q (next c))
    → IsReturned Q (and_then o next)
IsReturned-and_then P Q (returned c) next h k = k c h
IsReturned-and_then P Q (thrown c) next h k = absurd h
IsReturned-and_then P Q (escaped c) next h k = absurd h
IsReturned-and_then P Q crashed next h k = absurd h

pub IsReturned-mono :
    (P Q : StratumClient → Type 0) (o : Outcome)
    → IsReturned P o
    → ((c : StratumClient) → P c → Q c)
    → IsReturned Q o
IsReturned-mono P Q (returned c) h k = k c h
IsReturned-mono P Q (thrown c) h k = absurd h
IsReturned-mono P Q (escaped c) h k = absurd h
IsReturned-mono P Q crashed h k = absurd h
