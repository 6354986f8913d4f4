-- ===== src/Getwork/Tests.antt =====
-- Runs of the getwork client, and its theorems on them. A request is written as the character of its id,
-- and each answer has one character.
use quai_gpu_miner_archive.Getwork.{
  GetworkClient, and_then, returned, crashed, Text, Request, Connection, Session, Solution,
  WorkPackage, no_work, no_error, async_read, async_write, async_connect,
}
use quai_gpu_miner_archive.Getwork.Connecting.{connect, handle_resolve, post}
use quai_gpu_miner_archive.Getwork.Messages.{is_good_status, says_200}
use quai_gpu_miner_archive.Getwork.Responses.{handle_read, read_work, success_of}
use quai_gpu_miner_archive.Getwork.Submitting.{submit_solution}
use quai_gpu_miner_archive.Getwork.Exchange.{http_answer, IsIdle, ask, IsWithout}
use quai_gpu_miner_archive.Getwork.Refused.{refusals, connect-unreachable}
use quai_gpu_miner_archive.Getwork.Polling.{IsHttp, HasId, IsResult, IsPolled, poll, poll-IsPolled}
use quai_gpu_miner_archive.Getwork.Accounting.{account_call, later, submit_solution-handle_read}
use quai_gpu_miner_archive.Getwork.Sessions.{Leaves}
use quai_gpu_miner_archive.Getwork.Running.{
  connects, resolves, handles_connect, handles_write, handles_read, disconnects, run, run-IsSound,
}
use quai_gpu_miner_archive.Stratum.JsonTrees.{
  Tree, tree_json, object, array, text, flag, number, null_tree, no_fields, field_and, no_trees,
  tree_and, to_list, find,
}
use quai_gpu_miner_archive.Stratum.Connecting.{new_session}
use quai_gpu_miner_archive.Stratum.Texts.{codes, same_text, h256}
use quai_gpu_miner_archive.Ethash.Hash.{Hash, bytes}
use quai_gpu_miner_archive.Ethash.Epoch.{zero_hash}
use quai_gpu_miner_archive.CommonData.{to_hex, dont_add, from_hex_digit, from_hex}
use quai_gpu_miner_archive.Prelude.{
  ℕ, ◌≡◌, refl, ap, ◌≢◌, Bool, true, false, none, some, List, [], ◌∷◌, arith, ◌==◌, if◌then◌else◌,
  replicate,
}

abbrev write_test : Request → Text
write_test r = r.id ∷ []

abbrev node : Connection
node = record {
  host = codes "node";
  port = 8545;
  named = true;
  secure = false;
  version = 0;
  user = [];
  pass = [];
  worker = [];
  path = [];
  stratum_mode = 999;
  stratum_mode_confirmed = false;
  unrecoverable = false;
  responds = false;
  total_duration = 0;
}

abbrev fresh : GetworkClient Tree
fresh = record {
  farm_recheck_period = 500;
  worktimeout = 180;
  now = 5000;
  connected = false;
  connecting = false;
  tx_pending = false;
  tx_queue = [];
  endpoints = [];
  socket_open = false;
  request = [];
  pending = null_tree;
  pending_tstamp = 0;
  current = no_work;
  current_tstamp = 0;
  solution_submitted_max_id = 0;
  session = none;
  connection = node;
  calls = [];
}

abbrev session : Session
session = record (new_session 0) { subscribed = true; authorized = true }

abbrev working : GetworkClient Tree
working = record fresh { connected = true; session = some session; endpoints = 7 ∷ [] }

working-IsIdle : IsIdle working
working-IsIdle = record {
  not_connecting = refl;
  not_pending = refl;
  no_lines = refl;
  no_request = refl;
}

-- The header of the answer's work.
abbrev digits : Text
digits = replicate 64 97

abbrev hashes : Tree
hashes = array (
    tree_and (text digits)
      (tree_and (text digits) (tree_and (text digits) (tree_and (text (codes "0x10")) no_trees))))

abbrev with_id : ℕ → Tree
with_id n = object (field_and (codes "id") (number n) no_fields)

abbrev answer : Tree → Tree
answer result =
    object (field_and (codes "id") (number 0) (field_and (codes "result") result no_fields))

abbrev parse_test : Text → Bool × Tree
parse_test [] = (false, null_tree)
parse_test (c ∷ s) =
    (true, if c == 119 then answer hashes else if c == 116 then answer (flag true) else with_id c)

abbrev status : Text
status = codes "HTTP/1.0 200 OK"

abbrev headers : List Text
headers = codes "Server: x" ∷ []

abbrev page : Text → Text
page body = http_answer status headers body

is_without : ℕ → Text → Bool
is_without c [] = true
is_without c (d ∷ s) = if d == c then false else is_without c s

is_without-IsWithout : (c : ℕ) (s : Text) → is_without c s ≡ true → IsWithout c s
unfolding is_without
is_without-IsWithout c [] h = tt
is_without-IsWithout c (d ∷ s) h = ground (arith, is_without-IsWithout c s)

page-IsHttp : (body : Text) → IsWithout 10 body → IsHttp status headers body
unfolding is_good_status says_200 codes same_text is_without
page-IsHttp body h = record {
  good = refl;
  whole = is_without-IsWithout 13 status refl;
  are_headers = ((λ e. absurd (cc e), is_without-IsWithout 13 (codes "Server: x") refl), tt);
  one_line = h;
}

connect-unreachable_example :
    (and_then (connect write_test 0 fresh) (handle_resolve write_test none) ≡ crashed)
    × ((found : List ℕ)
        → refusals parse_test found
            (and_then (connect write_test 0 fresh) (handle_resolve write_test (some found)))
          ≡ crashed)
connect-unreachable_example = connect-unreachable parse_test write_test 0 fresh refl refl refl refl

run-IsSound_example : Leaves (
    run tree_json parse_test write_test
      (connects 0
        ∷ resolves (some (7 ∷ []))
        ∷ handles_connect no_error true
        ∷ handles_write no_error 9
        ∷ handles_read no_error (page (119 ∷ []))
        ∷ disconnects
        ∷ [])
      fresh)
run-IsSound_example = run-IsSound tree_json parse_test write_test _ fresh (refl, λ e. refl)

abbrev aaaa : Hash
aaaa = replicate 8 2863311530

abbrev work : WorkPackage
work = record no_work {
  header = aaaa;
  seed = aaaa;
  boundary = aaaa;
  block = some 16;
  job = to_hex (bytes aaaa) 2 dont_add;
}

ask_work : HasId tree_json parse_test 1 (with_id 1)
unfolding tree_json find same_text codes
ask_work = (find (field_and (codes "id") (number 1) no_fields), refl, refl)

answer-IsResult :
    (c : ℕ) (result : Tree)
    → parse_test (c ∷ []) ≡ (true, answer result)
    → IsResult tree_json parse_test (c ∷ []) result
unfolding tree_json find same_text codes
answer-IsResult c result h = record {
  field = find (field_and (codes "id") (number 0) (field_and (codes "result") result no_fields));
  id = number 0;
  is_read = ap (λ r. r.0) h;
  is_object = ap (λ r. tree_json.object r.1) h;
  has_id = refl;
  is_success = refl;
  has_result = refl;
}

read_hashes : read_work tree_json hashes ≡ some work
unfolding read_work tree_json to_list h256 from_hex_digit from_hex codes
read_hashes = refl

ask_solution : HasId tree_json parse_test 43 (with_id 43)
unfolding tree_json find same_text codes
ask_solution = (find (field_and (codes "id") (number 43) no_fields), refl, refl)

one_letter : (c : ℕ) → c ≢ 10 → IsWithout 10 (c ∷ [])
one_letter c h = (h, tt)

poll-IsPolled_example :
    (c' : GetworkClient Tree) × (poll tree_json parse_test write_test (page (119 ∷ [])) working
      ≡ returned c')
    × IsPolled tree_json parse_test 7 (1 ∷ []) work working c'
poll-IsPolled_example =
    poll-IsPolled tree_json parse_test write_test 1 [] status headers (119 ∷ []) hashes work 7 []
      working refl ask_work (page-IsHttp (119 ∷ []) (one_letter 119 (λ e. absurd (omega arith))))
      (answer-IsResult 119 hashes refl) read_hashes working-IsIdle refl refl

abbrev proof : Solution
proof = record { nonce = 7; mix_hash = zero_hash; work = no_work; midx = 3 }

says_true : success_of tree_json true (some (flag true)) ≡ some true
unfolding tree_json
says_true = refl

submit_solution-handle_read_example :
    (c' : GetworkClient Tree) × (and_then
        (ask parse_test (submit_solution write_test proof working))
        (λ d. handle_read tree_json parse_test no_error (page (116 ∷ [])) (later 250 d))
      ≡ returned c')
    × IsIdle c'
    × (c'.calls
        ≡ account_call true 250 3
          ∷ async_read
          ∷ async_write (post node (43 ∷ []))
          ∷ async_connect 7
          ∷ [])
submit_solution-handle_read_example =
    submit_solution-handle_read tree_json parse_test write_test proof 250 43 [] status headers
      (116 ∷ []) (flag true) true 7 [] session working refl ask_solution
      (page-IsHttp (116 ∷ []) (one_letter 116 (λ e. absurd (omega arith))))
      (answer-IsResult 116 (flag true) refl) says_true working-IsIdle refl refl (omega arith)
