-- ===== src/Stratum/Lines.antt =====
-- How the text that the client receives falls into lines.
use quai_gpu_miner_archive.Stratum.{
  is_connected, Text, Json, Outcome, StratumClient, returned, and_then,
}
use quai_gpu_miner_archive.Stratum.Sending.{recv_socket_data}
use quai_gpu_miner_archive.Stratum.Receiving.{
  split_lines, add_char, on_recv_socket_data_completed, dispatch, process_lines,
}
use quai_gpu_miner_archive.Ethash.Hash.{Hash}
use quai_gpu_miner_archive.Prelude.{
  ℕ, ◌≡◌, refl, ap, ◌∙◌, ◌≢◌, Bool, true, false, Option, some, List, [], ◌∷◌, ◌++◌, arith,
  if◌then◌else◌, ne→==, All,
}

-- The lines and the rest, written again.
abbrev pub join_lines : List Text × Text → Text
join_lines ([], rest) = rest
join_lines (line ∷ lines, rest) = line ++ 10 ∷ join_lines (lines, rest)

abbrev pub IsLineFree : Text → Type 0
IsLineFree = All (λ c. c ≢ 10)

join_lines-add_char : (c : ℕ) (r : List Text × Text) → join_lines (add_char c r) ≡ c ∷ join_lines r
join_lines-add_char c ([], rest) = ground arith
join_lines-add_char c (line ∷ lines, rest) = ground arith

-- Splitting a text loses nothing: the lines with a line feed behind each, and then the rest, are the text.
pub join_lines-split_lines : (s : Text) → join_lines (split_lines s) ≡ s
unfolding split_lines
join_lines-split_lines [] = refl
join_lines-split_lines (c ∷ s) =
    join_lines-add_char c (split_lines s) ∙ ap (λ r. c ∷ r) (join_lines-split_lines s)

split_lines-line_free : (s : Text) → IsLineFree s → split_lines s ≡ ([], s)
unfolding split_lines
split_lines-line_free [] h = refl
split_lines-line_free (c ∷ s) (other, h) = rw (split_lines-line_free s h, ne→== c 10 other) refl

append_assoc : (r s t : Text) → (r ++ s) ++ t ≡ r ++ (s ++ t)
append_assoc [] s t = refl
append_assoc (c ∷ r) s t = ap (λ u. c ∷ u) (append_assoc r s t)

module _ {Value : Type 0} (json : Json Value) (difficulty_target : Option Value → Option Hash)
    (parse : Text → Option Value) (trim : Text → Text) where
  abbrev receive : Text → StratumClient → Outcome
  receive s c = on_recv_socket_data_completed json difficulty_target parse trim (some s) c

  -- A client that has put a piece into its buffer, and reads on.
  abbrev pub buffered : Text → StratumClient → StratumClient
  buffered s c = record c {
    new_job_processed = false;
    message = c.message ++ s;
    calls = (if is_connected c then recv_socket_data c else c).calls;
  }

  -- When a piece and what the buffer holds have no line feed, the client keeps both in the buffer and
  -- processes no line. The next piece then has the same outcome as both pieces received at once have,
  -- but for the read that is already asked for.
  pub on_recv_socket_data_completed-append :
      (s t : Text) (c : StratumClient)
      → IsLineFree (c.message ++ s)
      → (receive s c ≡ returned (buffered s c))
        × (receive t (buffered s c) ≡ receive (s ++ t) (record c { calls = (buffered s c).calls }))
  unfolding on_recv_socket_data_completed process_lines
  on_recv_socket_data_completed-append s t c h = (
    rw (split_lines-line_free (c.message ++ s) h) (reads (is_connected c)),
    ap (λ text. at_once (split_lines text)) (append_assoc c.message s t),
  )
    where
      reads :
          (b : Bool)
          → let kept = record c { new_job_processed = false; message = c.message ++ s } in
            returned (if b then recv_socket_data kept else kept)
            ≡ returned (record kept { calls = (if b then recv_socket_data c else c).calls })
      reads true = refl
      reads false = refl

      at_once : List Text × Text → Outcome
      at_once (lines, left) =
          and_then
            (process_lines json difficulty_target parse trim lines
              (record (buffered s c) { new_job_processed = false; message = left }))
            (λ c'. returned (dispatch json difficulty_target parse trim c'))
