-- ===== src/Stratum/Pleas.antt =====
-- The answers that the client waits for: `enqueue_response_plea`, `dequeue_response_plea` and
-- `clear_response_pleas` of libpoolprotocols/stratum/EthStratumClient.cpp.
use quai_gpu_miner_archive.Stratum.{StratumClient}
use quai_gpu_miner_archive.Prelude.{
  ℕ, ◌+◌, ◌-◌, [], ◌∷◌, ◌++◌, ltb, ◌==◌, if◌then◌else◌, get_or, drop,
}

abbrev pub enqueue_response_plea : StratumClient → StratumClient
enqueue_response_plea c = record c {
  response_pleas_count = c.response_pleas_count + 1;
  response_plea_older = if c.response_pleas_count == 0 then c.now else c.response_plea_older;
  response_plea_times = c.response_plea_times ++ c.now ∷ [];
}

-- The delay, and the client afterwards. The oldest time becomes the one that is removed.
abbrev pub dequeue_response_plea : StratumClient → ℕ × StratumClient
dequeue_response_plea c = (
  if ltb 0 c.response_pleas_count then c.now - c.response_plea_older else 0,
  record c {
    response_plea_older = get_or c.response_plea_times 0 c.response_plea_older;
    response_plea_times = drop 1 c.response_plea_times;
    response_pleas_count = c.response_pleas_count - 1;
  },
)

abbrev pub clear_response_pleas : StratumClient → StratumClient
clear_response_pleas c = record c {
  response_pleas_count = 0;
  response_plea_times = [];
  response_plea_older = c.now;
}
