-- ===== src/Stratum/Delivery.antt =====
-- The order in which the client's lines reach the pool.
use quai_gpu_miner_archive.Stratum.{StratumClient, Line, is_connected, async_write}
use quai_gpu_miner_archive.Stratum.Sending.{send, on_send_socket_data_completed}
use mathlib.Core.List.{append-nil, append_assoc}
use quai_gpu_miner_archive.Prelude.{◌≡◌, refl, sym, ap, ◌∙◌, true, none, List, [], ◌∷◌, ◌++◌}

-- Several lines, one after the other.
abbrev pub send_all : List Line → StratumClient → StratumClient
send_all [] c = c
send_all (line ∷ lines) c = send_all lines (send line c)

send-pending :
    (line : Line) (c : StratumClient)
    → c.tx_pending ≡ true
    → send line c ≡ record c { tx_queue = c.tx_queue ++ line ∷ [] }
unfolding send
send-pending line c p = simp p

send_all-pending :
    (lines : List Line) (c : StratumClient)
    → c.tx_pending ≡ true
    → send_all lines c ≡ record c { tx_queue = c.tx_queue ++ lines }
send_all-pending [] c p = ap (λ q. record c { tx_queue = q }) (sym (append-nil c.tx_queue))
send_all-pending (line ∷ lines) c p =
    ap (send_all lines) (send-pending line c p)
    ∙ send_all-pending lines (record c { tx_queue = c.tx_queue ++ line ∷ [] }) p
    ∙ ap (λ q. record c { tx_queue = q }) (append_assoc c.tx_queue (line ∷ []) lines)

-- What a write that ended well does with a queue.
abbrev pub IsFlushed : List Line → StratumClient → StratumClient → Type 0
IsFlushed queue c c' =
    (c'.calls ≡ async_write queue ∷ c.calls) × (c'.tx_queue ≡ []) × (c'.tx_pending ≡ c.tx_pending)

IsFlushed-cons :
    (line : Line) (lines : List Line) (c : StratumClient)
    → is_connected c ≡ true
    → IsFlushed
        (line ∷ lines)
        c
        (on_send_socket_data_completed none (record c { tx_queue = line ∷ lines }))
unfolding on_send_socket_data_completed
IsFlushed-cons line lines c up = simp up (refl, refl, refl)

IsFlushed-append :
    (queue : List Line) (line : Line) (lines : List Line) (c : StratumClient)
    → is_connected c ≡ true
    → IsFlushed
        (queue ++ line ∷ lines)
        c
        (on_send_socket_data_completed none (record c { tx_queue = queue ++ line ∷ lines }))
IsFlushed-append [] line lines c up = IsFlushed-cons line lines c up
IsFlushed-append (first ∷ queue) line lines c up = IsFlushed-cons first (queue ++ line ∷ lines) c up

-- Lines that are sent while a write is under way wait behind those that wait already. When the write
-- ends well on a client that is connected, all of them are written at once, in the order in which they
-- were sent, none is left, and the new write is under way.
pub on_send_socket_data_completed-send_all :
    (line : Line) (lines : List Line) (c : StratumClient)
    → c.tx_pending ≡ true
    → is_connected c ≡ true
    → IsFlushed
        (c.tx_queue ++ line ∷ lines)
        c
        (on_send_socket_data_completed none (send_all (line ∷ lines) c))
on_send_socket_data_completed-send_all line lines c p up =
    rw (send_all-pending (line ∷ lines) c p) (IsFlushed-append c.tx_queue line lines c up)
