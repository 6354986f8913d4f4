-- ===== src/Stratum/Extranonces.antt =====
-- The digits of the nonce that the pool sets, and those that the client sends back.
use native.Mathlib.Nat.{one-le-pow}
use quai_gpu_miner_archive.CommonData.{dont_add}
use quai_gpu_miner_archive.Stratum.Notices.{process_extranonce, resize_16}
use quai_gpu_miner_archive.Stratum.{
  StratumClient, Session, returned, Text, Request, Connection, texts, user_dot_worker,
}
use quai_gpu_miner_archive.Stratum.Texts.{codes, hex_digits, to_hex_number, stoul}
use quai_gpu_miner_archive.Stratum.Submitting.{own_digits, solution_request}
use quai_gpu_miner_archive.EthashAux.{Solution}
use quai_gpu_miner_archive.Prelude.{
  ℕ, zero, suc, ◌+◌, ◌-◌, ◌*◌, ◌%◌, ◌^◌, ◌<◌, ◌≡◌, refl, sym, ap, ◌∙◌, subst, false, Option, none,
  some, List, [], ◌∷◌, ◌++◌, arith, ltb, if◌then◌else◌, length, take, drop, replicate,
  length-append,
}
use quai_gpu_miner_archive.Stratum.Digits.{
  length-hex_digits, hex_digits-append, hex_digits-zero, to_hex_number-hex_digits, parts-lt,
  drop-append,
}
use quai_gpu_miner_archive.Stratum.Reading.{stoul-hex_digits}

abbrev cut : Text → ℕ → Option Text
cut digits n = if ltb (length digits) n then none else some (drop n digits)

cut-append : (xs ys : Text) (n : ℕ) → length xs ≡ n → cut (xs ++ ys) n ≡ some ys
cut-append xs ys n e = rw (not_less, drop-append xs ys n e) refl
  where
    not_less : ltb (length (xs ++ ys)) n ≡ false
    not_less = ground (arith, length-append xs ys)

own_digits-hex_digits :
    (solution : Solution) (a b q r : ℕ)
    → a + b ≡ 16
    → q * 16 ^ b + r < 16 ^ 16
    → r < 16 ^ b
    → solution.nonce ≡ q * 16 ^ b + r
    → solution.work.ex_size_bytes ≡ a
    → own_digits solution ≡ some (hex_digits b r)
unfolding own_digits
own_digits-hex_digits solution a b q r e fits low nonce size =
    ap (λ v. cut (to_hex_number v dont_add 16) solution.work.ex_size_bytes) nonce
    ∙ ap (λ s. cut s solution.work.ex_size_bytes)
        (to_hex_number-hex_digits (q * 16 ^ b + r) fits ∙ hex_digits-append 16 a b q r (sym e) low)
    ∙ cut-append (hex_digits a q) (hex_digits b r) solution.work.ex_size_bytes
        (length-hex_digits a q ∙ sym size)

take-length : (xs : Text) (n : ℕ) → length xs ≡ n → take n xs ≡ xs
take-length [] zero e = refl
take-length [] (suc n) e = absurd (omega arith)
take-length (x ∷ xs) zero e = absurd (omega arith)
take-length (x ∷ xs) (suc n) e = ap (λ s. x ∷ s) (take-length xs n (omega arith))

-- The pool's digits, with zeros behind them.
resize_16-hex_digits :
    (a b q : ℕ) → a + b ≡ 16 → resize_16 (hex_digits a q) ≡ hex_digits 16 (q * 16 ^ b)
resize_16-hex_digits a b q e =
    ap (λ n. take 16 (hex_digits a q ++ replicate n 48)) left
    ∙ ap (λ s. take 16 (hex_digits a q ++ s)) (sym (hex_digits-zero b))
    ∙ ap (take 16) (sym (hex_digits-append 16 a b q 0 (sym e) (one-le-pow b 16 (omega arith))))
    ∙ take-length (hex_digits 16 (q * 16 ^ b + 0)) 16 (length-hex_digits 16 (q * 16 ^ b + 0))
    ∙ ap (hex_digits 16) plain
  where
    left : 16 - length (hex_digits a q) ≡ b
    left = omega (arith, length-hex_digits a q)

    plain : q * 16 ^ b + 0 ≡ q * 16 ^ b
    plain = omega arith

-- The session with an extranonce.
abbrev pub with_extranonce : ℕ → ℕ → Session → Session
with_extranonce n size session = record session { extra_nonce = n; extra_nonce_size_bytes = size }

-- The request that sends a solution in NiceHash's mode and in that of EthereumStratum/2.0.0.
abbrev pub own_request : ℕ → List Text → Request
own_request midx params = record {
  id = (40 + midx) % 2 ^ 32;
  jsonrpc = false;
  method = codes "mining.submit";
  params = texts params;
  worker = none;
}

-- When the pool sets the first `a` of the sixteen digits of the nonce to those of `q`, the
-- client starts from the nonce with these digits and zeros behind them. For a solution whose nonce
-- starts with the pool's digits, and whose work was taken with `a` digits set, the requests of the modes
-- 2 and 3 hold the other digits, and the two parts together are the digits of the nonce.
pub process_extranonce-own_digits :
    (a b q r : ℕ) (c : StratumClient) (session : Session) (solution : Solution) (uri : Connection)
    → c.session ≡ some session
    → a + b ≡ 16
    → q < 16 ^ a
    → r < 16 ^ b
    → solution.nonce ≡ q * 16 ^ b + r
    → solution.work.ex_size_bytes ≡ a
    → (process_extranonce (hex_digits a q) c
        ≡ returned (record c { session = some (with_extranonce (q * 16 ^ b) a session) }))
      × (solution_request (record uri { stratum_mode = 2 }) session.worker_id solution
          ≡ some (
              own_request solution.midx
                (user_dot_worker uri ∷ solution.work.job ∷ hex_digits b r ∷ [])))
      × (solution_request (record uri { stratum_mode = 3 }) session.worker_id solution
          ≡ some (
              own_request solution.midx
                (solution.work.job ∷ hex_digits b r ∷ session.worker_id ∷ [])))
      × (hex_digits a q ++ hex_digits b r ≡ hex_digits 16 solution.nonce)
unfolding process_extranonce solution_request
process_extranonce-own_digits a b q r c session solution uri has_session e high low nonce size = (
  ground (arith, length-hex_digits a q, number),
  rw own refl,
  rw own refl,
  sym (hex_digits-append 16 a b q r (sym e) low) ∙ ap (hex_digits 16) (sym nonce),
)
  where
    own : own_digits solution ≡ some (hex_digits b r)
    own = own_digits-hex_digits solution a b q r e (parts-lt a b q r e high low) low nonce size

    plain : q * 16 ^ b + 0 ≡ q * 16 ^ b
    plain = omega arith

    number : stoul (resize_16 (hex_digits a q)) ≡ some (q * 16 ^ b)
    number =
        ap stoul (resize_16-hex_digits a b q e)
        ∙ stoul-hex_digits (q * 16 ^ b) (
            subst (λ n. n < 16 ^ 16) plain
              (parts-lt a b q 0 e high (one-le-pow b 16 (omega arith))))
