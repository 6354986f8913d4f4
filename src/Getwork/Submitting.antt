-- ===== src/Getwork/Submitting.antt =====
-- `submitHashrate` and `submitSolution` of libpoolprotocols/getwork/EthGetworkClient.cpp.
use quai_gpu_miner_archive.Getwork.{
  GetworkClient, Outcome, returned, Request, texts, Text, Solution,
}
use quai_gpu_miner_archive.Getwork.Connecting.{send}
use quai_gpu_miner_archive.Stratum.Submitting.{hex}
use quai_gpu_miner_archive.Stratum.Texts.{codes, to_hex_number}
use quai_gpu_miner_archive.CommonData.{add}
use quai_gpu_miner_archive.Prelude.{ℕ, ◌+◌, ◌%◌, ◌^◌, true, none, some, [], ◌∷◌, ltb, if◌then◌else◌}

abbrev pub hashrate_request : ℕ → Text → Request
hashrate_request rate id = record {
  id = 9;
  jsonrpc = true;
  method = codes "eth_submitHashrate";
  params = texts (to_hex_number rate add 16 ∷ id ∷ []);
  worker = none;
}

abbrev pub solution_request : Solution → Request
solution_request solution = record {
  id = (40 + solution.midx) % 2 ^ 32;
  jsonrpc = true;
  method = codes "eth_submitWork";
  params =
      texts (
        to_hex_number solution.nonce add 16
        ∷ hex solution.work.header
        ∷ hex solution.mix_hash
        ∷ []);
  worker = none;
}

-- `m_solution_submitted_max_id = max(m_solution_submitted_max_id, id)`.
abbrev pub raise_max_id : {Value : Type 0} → Solution → GetworkClient Value → GetworkClient Value
raise_max_id solution c =
    let id = (40 + solution.midx) % 2 ^ 32 in
    record c {
      solution_submitted_max_id =
          if ltb c.solution_submitted_max_id id then id else c.solution_submitted_max_id;
    }

module _ {Value : Type 0} (write : Request → Text) where
  unfoldable pub submit_hashrate : ℕ → Text → GetworkClient Value → Outcome (GetworkClient Value)
  unfolding send
  submit_hashrate rate id c = elim c.session [
    | none ↦ returned c
    | some session ↦ send (write (hashrate_request rate id)) c
  ]

  unfoldable pub submit_solution : Solution → GetworkClient Value → Outcome (GetworkClient Value)
  unfolding send
  submit_solution solution c = elim c.session [
    | none ↦ returned c
    | some session ↦ send (write (solution_request solution)) (raise_max_id solution c)
  ]
