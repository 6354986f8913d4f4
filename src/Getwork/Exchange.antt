-- ===== src/Getwork/Exchange.antt =====
-- A request and its answer, from the operation that sends the request to the answer's body.
use quai_gpu_miner_archive.Getwork.{
  GetworkClient, Json, Outcome, and_then, returned, Text, no_error, async_connect, async_write,
  async_read, call,
}
use quai_gpu_miner_archive.Getwork.Connecting.{
  send, begin_connect, handle_connect, handle_write, write_line, next_line, post, establish,
}
use quai_gpu_miner_archive.Getwork.Messages.{split_crlf, put, without_feeds, is_good_status}
use quai_gpu_miner_archive.Getwork.Responses.{handle_read, read_lines, process_body, settle}
use quai_gpu_miner_archive.Stratum.Texts.{codes, same_text}
use quai_gpu_miner_archive.Prelude.{
  ℕ, ◌≡◌, refl, ap, ◌∙◌, ◌≢◌, inl, inr, Bool, true, false, List, [], ◌∷◌, ◌++◌, arith, ◌==◌,
  Bool-cases, ne→==, length, drop, All,
}

-- The character does not occur.
abbrev pub IsWithout : ℕ → Text → Type 0
IsWithout c s = All (λ d. d ≢ c) s

-- A header: not empty, and without a carriage return.
abbrev pub IsHeader : Text → Type 0
IsHeader line = (line ≢ []) × IsWithout 13 line

abbrev pub with_crlf : List Text → Text → Text
with_crlf [] s = s
with_crlf (line ∷ lines) s = line ++ 13 ∷ 10 ∷ with_crlf lines s

-- An answer by HTTP.
abbrev pub http_answer : Text → List Text → Text → Text
http_answer status headers body = with_crlf (status ∷ headers) (13 ∷ 10 ∷ body)

split_crlf-rest : (s : Text) → IsWithout 10 s → split_crlf s ≡ ([], s)
unfolding split_crlf
split_crlf-rest [] h = refl
split_crlf-rest (c ∷ []) h = refl
split_crlf-rest (c ∷ d ∷ s) (hc, (hd, h)) =
    rw (split_crlf, split_crlf-rest (d ∷ s) (hd, h), ne→== d 10 hd)
      (elim (Bool-cases (c == 13)) [ inl e ↦ rw e refl | inr e ↦ rw e refl ])

split_crlf-line :
    (line s : Text)
    → IsWithout 13 line
    → split_crlf (line ++ 13 ∷ 10 ∷ s) ≡ (line ∷ (split_crlf s).0, (split_crlf s).1)
unfolding split_crlf
split_crlf-line [] s h = refl
split_crlf-line (c ∷ []) s (hc, h) = rw (split_crlf, ne→== c 13 hc) refl
split_crlf-line (c ∷ d ∷ line) s (hc, h) =
    rw (split_crlf, ne→== c 13 hc) (ap (put c) (split_crlf-line (d ∷ line) s h))

split_crlf-lines :
    (lines : List Text) (s : Text)
    → All (IsWithout 13) lines
    → split_crlf (with_crlf lines s) ≡ (lines ++ (split_crlf s).0, (split_crlf s).1)
split_crlf-lines [] s h = refl
split_crlf-lines (line ∷ lines) s (hl, h) =
    split_crlf-line line (with_crlf lines s) hl
    ∙ ap (λ r. (line ∷ r.0, r.1)) (split_crlf-lines lines s h)

without_feeds-same : (s : Text) → IsWithout 10 s → without_feeds s ≡ s
unfolding without_feeds
without_feeds-same [] h = refl
without_feeds-same (c ∷ s) (hc, h) = rw (without_feeds, ne→== c 10 hc, without_feeds-same s h) refl

split_crlf-answer :
    (status : Text) (headers : List Text) (body : Text)
    → IsWithout 13 status
    → All (IsWithout 13) headers
    → IsWithout 10 body
    → split_crlf (http_answer status headers body) ≡ (status ∷ headers ++ [] ∷ [], body)
split_crlf-answer status headers body hs hh hb =
    split_crlf-lines (status ∷ headers) (13 ∷ 10 ∷ body) (hs, hh)
    ∙ ap (λ r. (status ∷ headers ++ r.0, r.1))
        (split_crlf-line [] body tt ∙ ap (λ r. ([] ∷ r.0, r.1)) (split_crlf-rest body hb))

module _ {Value : Type 0} (json : Json Value) (parse : Text → Bool × Value) where
  read_lines-headers :
      (headers : List Text) (body : Text) (c : GetworkClient Value)
      → All IsHeader headers
      → read_lines json parse false true body (headers ++ [] ∷ []) c
        ≡ and_then (process_body json parse (without_feeds body) c) (settle json parse)
  unfolding read_lines
  read_lines-headers [] body c h = refl
  read_lines-headers ([] ∷ headers) body c (hl, h) = absurd (hl.0 refl)
  read_lines-headers ((a ∷ line) ∷ headers) body c (hl, h) = read_lines-headers headers body c h

  abbrev pub closed : GetworkClient Value → GetworkClient Value
  closed c = record c { socket_open = false }

  -- An answer with a good status and headers, none of them empty and none with a carriage return, is read
  -- as its body, if that has no line feed: the client closes the socket, handles the body as one
  -- message, and then sends what waits in the queue, or ends the exchange.
  pub handle_read-http_answer :
      (status : Text) (headers : List Text) (body : Text) (c : GetworkClient Value)
      → is_good_status status ≡ true
      → IsWithout 13 status
      → All IsHeader headers
      → IsWithout 10 body
      → handle_read json parse no_error (http_answer status headers body) c
        ≡ and_then (process_body json parse body (closed c)) (settle json parse)
  unfolding handle_read read_lines is_good_status same_text codes
  handle_read-http_answer [] headers body c good hs hh hb = absurd (cc good)
  handle_read-http_answer (a ∷ status) headers body c good hs hh hb =
      rw (split_crlf-answer (a ∷ status) headers body hs (All-map headers hh) hb, good)
        (read_lines-headers headers body (closed c) hh
          ∙ ap (λ s. and_then (process_body json parse s (closed c)) (settle json parse))
              (without_feeds-same body hb))
    where
      All-map : (lines : List Text) → All IsHeader lines → All (IsWithout 13) lines
      All-map [] h = tt
      All-map (line ∷ lines) (hl, h) = (hl.1, All-map lines h)

-- No connection is established, no exchange is under way and nothing waits to be sent.
pub record IsIdle {Value : Type 0} (c : GetworkClient Value) : Type 0 where
  pub not_connecting : c.connecting ≡ false
  pub not_pending : c.tx_pending ≡ false
  pub no_lines : c.tx_queue ≡ []
  pub no_request : c.request ≡ []

module _ {Value : Type 0} (parse : Text → Bool × Value) where
  -- The exchange of a line, up to the answer.
  abbrev pub ask : Outcome (GetworkClient Value) → Outcome (GetworkClient Value)
  ask o =
      and_then (and_then o (handle_connect parse no_error true))
        (λ c. handle_write no_error (length c.request) c)

  -- The client that waits for the answer to a line.
  abbrev pub asked : ℕ → Text → GetworkClient Value → GetworkClient Value
  asked endpoint line c = record c {
    tx_pending = true;
    tx_queue = [];
    socket_open = true;
    request = [];
    pending = (parse line).1;
    pending_tstamp = c.now;
    calls = async_read ∷ async_write (post c.connection line) ∷ async_connect endpoint ∷ c.calls;
  }

  drop-length : {A : Type 0} (xs : List A) → drop (length xs) xs ≡ []
  drop-length [] = refl
  drop-length (x ∷ xs) = drop-length xs

  begin_connect-endpoint :
      (endpoint : ℕ) (rest : List ℕ) (c : GetworkClient Value)
      → c.endpoints ≡ endpoint ∷ rest
      → begin_connect c ≡ returned (call (async_connect endpoint) c)
  unfolding begin_connect
  begin_connect-endpoint endpoint rest c he = ground arith

  send-idle :
      (endpoint : ℕ) (rest : List ℕ) (line : Text) (c : GetworkClient Value)
      → IsIdle c
      → c.endpoints ≡ endpoint ∷ rest
      → send line c
        ≡ returned
            (call (async_connect endpoint) (record c { tx_pending = true; tx_queue = line ∷ [] }))
  unfolding send
  send-idle endpoint rest line c idle he = rw idle.not_pending (
      ap (λ q. begin_connect (record c { tx_pending = true; tx_queue = q ++ line ∷ [] }))
        idle.no_lines
      ∙ begin_connect-endpoint endpoint rest (record c { tx_pending = true; tx_queue = line ∷ [] })
          he)

  establish-same : (c : GetworkClient Value) → c.connecting ≡ false → establish c ≡ c
  unfolding establish
  establish-same c h = rw h refl

  write_line-first :
      (a : ℕ) (line : Text) (c : GetworkClient Value)
      → c.tx_queue ≡ (a ∷ line) ∷ []
      → c.request ≡ []
      → write_line parse c
        ≡ call (async_write (post c.connection (a ∷ line))) (record c {
          tx_queue = [];
          request = post c.connection (a ∷ line);
          pending = (parse (a ∷ line)).1;
          pending_tstamp = c.now;
        })
  unfolding write_line next_line
  write_line-first a line c hq hr = ground arith

  handle_connect-line :
      (a : ℕ) (line : Text) (c : GetworkClient Value)
      → c.connecting ≡ false
      → c.tx_queue ≡ (a ∷ line) ∷ []
      → c.request ≡ []
      → handle_connect parse no_error true c
        ≡ returned (
            call (async_write (post c.connection (a ∷ line))) (record c {
              tx_queue = [];
              socket_open = true;
              request = post c.connection (a ∷ line);
              pending = (parse (a ∷ line)).1;
              pending_tstamp = c.now;
            }))
  unfolding handle_connect
  handle_connect-line a line c hc hq hr =
      rw
        (
          establish-same (record c { socket_open = true }) hc,
          write_line-first a line (record c { socket_open = true }) hq hr,
        )
        refl

  pub ask-send :
      (endpoint a : ℕ) (rest : List ℕ) (line : Text) (c : GetworkClient Value)
      → IsIdle c
      → c.endpoints ≡ endpoint ∷ rest
      → ask (send (a ∷ line) c) ≡ returned (asked endpoint (a ∷ line) c)
  unfolding handle_write
  ask-send endpoint a rest line c idle he =
      rw
        (
          send-idle endpoint rest (a ∷ line) c idle he,
          handle_connect-line a line
              (call (async_connect endpoint)
                (record c { tx_pending = true; tx_queue = (a ∷ line) ∷ [] }))
              idle.not_connecting refl idle.no_request,
          drop-length (post c.connection (a ∷ line)),
        )
        refl
