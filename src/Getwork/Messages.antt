-- ===== src/Getwork/Messages.antt =====
-- The texts of an answer by HTTP: the lines that libpoolprotocols/getwork/EthGetworkClient.cpp reads one
-- by one, as one list.
use quai_gpu_miner_archive.Getwork.{Text}
use quai_gpu_miner_archive.Stratum.Texts.{codes, same_text}
use quai_gpu_miner_archive.Prelude.{ℕ, Bool, false, ◌&&◌, List, [], ◌∷◌, ◌==◌, if◌then◌else◌, take}

-- A character before the lines and the rest.
abbrev pub put : ℕ → List Text × Text → List Text × Text
put c ([], rest) = ([], c ∷ rest)
put c (line ∷ lines, rest) = ((c ∷ line) ∷ lines, rest)

-- The lines that end with "\r\n", and what is behind the last of them.
unfoldable pub split_crlf : Text → List Text × Text
split_crlf [] = ([], [])
split_crlf (c ∷ []) = ([], c ∷ [])
split_crlf (c ∷ d ∷ s) =
    let rest = split_crlf s in
    let more = split_crlf (d ∷ s) in
    if (c == 13) && (d == 10) then ([] ∷ rest.0, rest.1) else put c more

-- `replace_all(rx_message, "\n", "")`.
unfoldable pub without_feeds : Text → Text
without_feeds [] = []
without_feeds (c ∷ s) = let rest = without_feeds s in if c == 10 then rest else c ∷ rest

-- Whether what is behind the first space begins with "200".
unfoldable pub says_200 : Text → Bool
unfolding same_text
says_200 [] = false
says_200 (c ∷ s) =
    let rest = says_200 s in if c == 32 then same_text (take 3 s) (codes "200") else rest

-- The tests of the first line.
unfoldable pub is_good_status : Text → Bool
unfolding says_200
is_good_status line = same_text (take 7 line) (codes "HTTP/1.") && says_200 line
