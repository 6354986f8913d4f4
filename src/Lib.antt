-- ===== src/Lib.antt =====
-- Verification of the GPU miner's proof of work, of its farm of miners and of its management of pool
-- connections.
--
-- The miner hashes candidate nonces with Ethash: a light cache grows from the seed of an epoch, the
-- items of the dataset are computed from the light cache, a hash mixes 64 of them, and a nonce solves
-- a problem when its hash, read as a number, is within a boundary. ProgPoW does the same with a random
-- program that changes with the block. The pool manager keeps a list of pool connections, has a client
-- for the active one, moves to another when the client is disconnected, and passes the work it
-- receives on to the farm. The farm deals the nonces out to its miners, evaluates what they find with
-- the contexts that the process shares, and keeps their accounts. The stratum client finds out which
-- protocol a pool speaks, logs in, makes work of the pool's jobs, sends it the solutions and accounts
-- its answers.
--
-- Files, and the code they are about:
--   Primes              libethash/primes.c: is_odd_prime and ethash_find_largest_prime.
--   Bits                libethash/bit_manipulation.h: rotations, counts, FNV-1 and FNV-1a.
--   Keccak              libethash/keccak.c: the sponge. Keccak.F1600 and Keccak.F800 are
--                       libethash/keccakf1600.c and keccakf800.c, with the 25 variables of the code
--                       as the record Keccak.Lanes; Keccak.Reference is a definition of Keccak-p that
--                       shares nothing with the code: it generates offsets and constants.
--   Ethash.Hash         libethash/ethash/hash_types.h and libethash/ethash-internal.hpp: the hash
--                       types as lists of 32-bit words, their bytes, their comparison.
--   Ethash.Cache        libethash/ethash.cpp: generic::build_light_cache.
--   Ethash.Dataset      libethash/ethash.cpp: item_state and calculate_dataset_item_512, _1024, _2048.
--   Ethash.Kernel       libethash/ethash.cpp: hash of both contexts, verify, verify_final_hash,
--                       search_light and search. The full dataset, which hash fills as it reads it,
--                       is passed along as a state.
--   Ethash.Epoch        libethash/ethash.cpp and libethash/ethash/ethash.hpp: the sizes, the seeds and
--                       find_epoch_number, with the thread's cache as an argument and a result.
--   Ethash.Context      libethash/ethash.cpp: generic::create_epoch_context.
--   Progpow             libethash/kiss99.hpp and libethash/progpow.cpp: mix_rng_state, random_math and
--                       random_merge (Merge), round (Round), and the hashes, verify and searches
--                       (Kernel), whose full dataset is the one that Ethash fills, seen in pairs.
--   CommonData          libdevcore/CommonData.h and CommonData.cpp: fromHex, toHex, toBigEndian and
--                       fromBigEndian.
--   Worker              libdevcore/Worker.h and Worker.cpp: the thread of a worker and those that start,
--                       stop and destroy it, one access of the atomic state at a time.
--   Managed             libethash/managed.cpp: the shared context and those of the threads.
--   EthashAux           libethcore/EthashAux.h and EthashAux.cpp: work, solutions and eval; the
--                       comparisons of h256 in libdevcore/FixedHash.h.
--   Miner               libethcore/Miner.h and Miner.cpp: work, reasons to pause, order of loading.
--   Farm                libethcore/Farm.h and Farm.cpp: start, stop, pause, accountSolution (Farm),
--                       setWork (Work), submitProofAsync (Proofs), collectData (Collecting), and
--                       Steps, the relation of all that can happen.
--   PoolManager         libpoolprotocols/PoolManager.cpp: Rotation (rotateConnect, start),
--                       Connections (add, remove, set active), Handlers (the client's and the timers'
--                       handlers, stop) and Steps, the relation of all that can happen.
--   Stratum             libpoolprotocols/stratum/EthStratumClient.h and EthStratumClient.cpp: the
--                       client's state and its session (Stratum), connect, disconnect and their
--                       handlers (Connecting), workloop_timer_elapsed (Timer), send and the writes
--                       (Sending), the awaited answers (Pleas), processResponse (Messages, Logins,
--                       Replies, Jobs, Notices), onRecvSocketDataCompleted (Receiving),
--                       submitHashrate and submitSolution (Submitting), numbers and hashes as texts
--                       (Texts). Stratum.Sessions.Reachable has the relation of all that can happen.
--   PoolUri             libpoolprotocols/PoolURI.cpp: the schemes and the decoding of a text (PoolUri),
--                       the parts of a URI and their splits (Parts), its constructor and what it is
--                       asked (Parsing).
--   Getwork             libpoolprotocols/getwork/EthGetworkClient.h and EthGetworkClient.cpp: the state
--                       (Getwork), connect, disconnect, send and the handlers of boost::asio
--                       (Connecting), handle_read and processResponse (Messages, Responses),
--                       submitHashrate and submitSolution (Submitting). Getwork.Running has all that
--                       can happen.
--
-- Conventions. Words are natural numbers with the wrap-around written out (u32, u64); the machine is
-- little-endian. A read or write outside an array is none of Option, so that a theorem that gives some
-- says that there is none. Pool operations give an Outcome: the exception, if any, and the state that
-- is left; a use of a null client is an exception of its own. What the manager asks of the farm is an
-- argument (FarmView), and the calls it makes of the farm, the client, the timers and the event loop
-- are a list in the state, the last one first. Whether calloc has memory, and the comparison of texts
-- that ignores case, are parameters.
--
-- Fuel. The trial division of a number has the number itself as fuel, which is enough because each
-- turn raises the divisor and the division stops at the square root; the descent of the search for a
-- prime has its start as fuel, and meets 3 at the latest. The other loops are counted: for_range runs
-- a body a given number of times. A search of nonces runs as often as the difference of its bounds. The
-- digits of a number are written with fuel for 16 of them in hexadecimal, which 64 bits need, and in
-- decimal with the number and one more.
--
-- The number that a random device draws, the kinds of miner a build has, what the hardware monitors
-- tell, and the floating-point expression for the width of a segment are parameters too.
--
-- The stratum client reads jsoncpp's values through the record Stratum.Json, whose fields are
-- parameters, as are the parser, boost::trim, and the boundary of a difficulty, which is computed in
-- floating point. Requests are records, which jsoncpp writes as text. A handler ends by returning, by an
-- exception that is caught further up, by one that is not, or by the use of a null pointer or an empty
-- queue. What boost::asio does is a list of calls in the state, and what it reports an argument. Time
-- stands still within a handler. The client's mode is the number that the code compares, and a block
-- or an epoch of 2 ^ 31 or more is told from no other negative one.
--
-- The regular expressions that read an address are written out as the splits that their greedy groups
-- make, for a text without line breaks and with at most ten texts in backticks, so that the number of
-- each is one digit. boost's to_lower, replace_all, lexical_cast and its addresses are parameters.
--
-- The getwork client reads its answers through the same record Stratum.Json. jsoncpp's reader, with the
-- value that it leaves, and its writer are parameters. What has come of an answer is one text, as the code
-- reads it at once; the loop over its lines goes over the list of them.
--
-- Not modelled: the miners' devices (libethash-cl, libethash-cuda, libethash-cpu), the texts of their
-- kernels (libprogpow), rates of hashes and the reading of the monitors (libhwmon), the client for
-- benchmarks (libpoolprotocols/testing), the certificates of a secure socket, the API server and the
-- command line; log lines, JSON lists and the list of known schemes, which are output only. An
-- operation that holds a lock is one step. setWork of a miner tests under one lock and writes under
-- another: its write may also come late, as a step of its own (Farm.Steps), so that a miner that pauses
-- in between keeps the work. A worker's workLoop is a parameter that says in which states of the
-- worker it can return. The client of the manager can mark the connections that it shares at any
-- time (PoolManager.Steps). The relaxed atomic flags of the manager are read and written in the order of
-- the program, and compare_exchange_weak does not fail for no reason, here, in Worker and in Getwork.
pub mod Prelude
pub mod Primes
pub mod Bits
pub mod CommonData
pub mod EthashAux
pub mod Farm
pub mod Keccak
pub mod Ethash
pub mod Managed
pub mod Miner
pub mod PoolManager
pub mod PoolUri
pub mod Getwork
pub mod Progpow
pub mod Stratum
pub mod Worker
