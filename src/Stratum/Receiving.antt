-- ===== src/Stratum/Receiving.antt =====
-- What the client receives: `processResponse` and `onRecvSocketDataCompleted` of
-- libpoolprotocols/stratum/EthStratumClient.cpp. The parser of jsoncpp and the spaces that
-- boost::trim removes are arguments.
use quai_gpu_miner_archive.Stratum.{
  Json, StratumClient, Outcome, Text, attempt, call, returned, tell_work, is_connected,
  mark_unrecoverable, caught, and_then,
}
use quai_gpu_miner_archive.Stratum.Messages.{Message, read_message, is_invalid}
use quai_gpu_miner_archive.Stratum.Sending.{recv_socket_data}
use quai_gpu_miner_archive.Stratum.Logins.{quit}
use quai_gpu_miner_archive.Stratum.Replies.{process_reply}
use quai_gpu_miner_archive.Stratum.Notices.{process_notice}
use quai_gpu_miner_archive.Stratum.Texts.{codes}
use quai_gpu_miner_archive.Ethash.Hash.{Hash}
use quai_gpu_miner_archive.Prelude.{
  ℕ, true, false, ◌&&◌, Option, none, some, List, [], ◌∷◌, ◌++◌, ◌==◌, if◌then◌else◌,
}

-- A character before lines and the rest behind the last of them.
abbrev pub add_char : ℕ → List Text × Text → List Text × Text
add_char c ([], rest) = if c == 10 then ([] ∷ [], rest) else ([], c ∷ rest)
add_char c (line ∷ lines, rest) =
    if c == 10 then ([] ∷ line ∷ lines, rest) else ((c ∷ line) ∷ lines, rest)

-- The lines that end in the text, and what is left behind the last line feed.
unfoldable pub split_lines : Text → List Text × Text
split_lines [] = ([], [])
split_lines (c ∷ s) = add_char c (split_lines s)

module _ {Value : Type 0} (json : Json Value) (difficulty_target : Option Value → Option Hash) where
  -- A notification is not processed before the mode is confirmed.
  unfoldable pub process_message : Message Value → StratumClient → Outcome
  unfolding process_reply process_notice
  process_message m c =
      let job = record m { method = codes "mining.notify"; is_notification = true } in
      if is_invalid json m
      then quit c
      else if m.is_notification
      then (if c.connection.stratum_mode_confirmed
          then process_notice json difficulty_target m c
          else returned c)
      else if m.id == 5
      then (if (c.connection.stratum_mode == 1)
            && json.is_array m.result
            && c.connection.stratum_mode_confirmed
          then process_notice json difficulty_target job c
          else returned c)
      else process_reply json m c

  unfoldable pub process_response : Value → StratumClient → Outcome
  unfolding read_message process_message
  process_response value c =
      attempt (read_message json (c.connection.stratum_mode == 1) value) c
        (λ m. process_message m c)

  module _ (parse : Text → Option Value) (trim : Text → Text) where
    -- A line: its exceptions are caught. A line that is not parsed is skipped.
    unfoldable pub process_line : Text → StratumClient → Outcome
    unfolding process_response
    process_line [] c = returned c
    process_line (d ∷ line) c = elim (trim (d ∷ line)) [
      | [] ↦ returned c
      | a ∷ rest ↦ elim (parse (a ∷ rest)) [
        | none ↦ returned c
        | some value ↦ caught (process_response value c)
      ]
    ]

    -- Each line, with what follows it in the buffer.
    unfoldable pub process_lines : List Text → StratumClient → Outcome
    unfolding process_line
    process_lines [] c = returned c
    process_lines (line ∷ lines) c = and_then (process_line line c) (process_lines lines)

    abbrev pub dispatch : StratumClient → StratumClient
    dispatch c =
        let told = if c.new_job_processed then call (tell_work c.current) c else c in
        if is_connected c then recv_socket_data told else told

    -- `none` is an error of the read. The lines leave the buffer before they are processed, which differs
    -- from the code only when an exception escapes, and the thread of the event loop ends.
    unfoldable pub on_recv_socket_data_completed : Option Text → StratumClient → Outcome
    unfolding split_lines process_lines
    on_recv_socket_data_completed (some received) c =
        let (lines, left) = split_lines (c.message ++ received) in
        and_then (process_lines lines (record c { new_job_processed = false; message = left }))
          (λ c'. returned (dispatch c'))
    on_recv_socket_data_completed none c =
        if is_connected c
        then quit (if c.auth_pending then mark_unrecoverable c else c)
        else returned c
