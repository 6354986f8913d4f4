-- ===== src/EthashAux.antt =====
-- The work packages and solutions of libethcore/EthashAux.h, the comparisons of libdevcore/FixedHash.h
-- on them, and `EthashAux::eval` of libethcore/EthashAux.cpp. The name of the algorithm, which nothing
-- reads, and the time of a solution are left out.
pub mod Laws
pub mod Eval
use quai_gpu_miner_archive.Ethash.Hash.{Hash, bytes, word64s}
use quai_gpu_miner_archive.Ethash.Epoch.{zero_hash}
use quai_gpu_miner_archive.Ethash.Kernel.{HashResult}
use quai_gpu_miner_archive.Managed.{Managed, get_global_epoch_context}
use quai_gpu_miner_archive.Progpow.Kernel.{hash}
use quai_gpu_miner_archive.Prelude.{
  ℕ, Bool, true, false, not, ◌&&◌, ◌||◌, Option, none, some, List, [], ◌∷◌, ltb, ◌==◌,
  if◌then◌else◌, ◌>>=◌,
}

-- Text, as the codes of its characters.
abbrev pub Text : Type 0
Text = List ℕ

-- `WorkPackage`. `none` is the −1 of an epoch or a block that is not given.
pub record WorkPackage : Type 0 where
  pub job : Text
  pub boundary : Hash
  pub header : Hash
  pub seed : Hash
  pub epoch : Option ℕ
  pub block : Option ℕ
  pub start_nonce : ℕ
  pub ex_size_bytes : ℕ

abbrev pub no_work : WorkPackage
no_work = record {
  job = [];
  boundary = zero_hash;
  header = zero_hash;
  seed = zero_hash;
  epoch = none;
  block = none;
  start_nonce = 0;
  ex_size_bytes = 0;
}

-- `EpochContext`. The pointer to the light cache is the cache.
pub record EpochContext : Type 0 where
  pub epoch_number : ℕ
  pub light_num_items : ℕ
  pub light_size : ℕ
  pub light_cache : List Hash
  pub dag_num_items : ℕ
  pub dag_size : ℕ

pub record Solution : Type 0 where
  pub nonce : ℕ
  pub mix_hash : Hash
  pub work : WorkPackage
  pub midx : ℕ

-- The loop of `operator<` over the bytes that are left.
unfoldable pub bytes_less : List ℕ → List ℕ → Bool
bytes_less [] bs = false
bytes_less (a ∷ as_) [] = false
bytes_less (a ∷ as_) (b ∷ bs) =
    if ltb a b then true else if ltb b a then false else bytes_less as_ bs

-- `operator==` of h256, which compares its four 64-bit words.
unfoldable pub same_words : List ℕ → List ℕ → Bool
same_words [] [] = true
same_words [] (b ∷ bs) = false
same_words (a ∷ as_) [] = false
same_words (a ∷ as_) (b ∷ bs) = a == b && same_words as_ bs

unfoldable pub h256_greater : Hash → Hash → Bool
unfolding bytes_less same_words
h256_greater a b = not (same_words (word64s a) (word64s b) || bytes_less (bytes a) (bytes b))

-- A block of −1 has period 0, like block 0.
abbrev pub block_number : Option ℕ → ℕ
block_number none = 0
block_number (some block) = block

-- `eval` with a block number, in a thread with the contexts that libethash/managed.cpp keeps. `none`
-- is the use of a null pointer.
unfoldable pub eval :
    (ℕ → Bool) → ℕ → ℕ → Option ℕ → Hash → ℕ → Managed → Option (HashResult × Managed)
eval calloc thread epoch block header_hash nonce s = do
  (context, s) ← get_global_epoch_context calloc false thread epoch s
  f ← context
  r ← hash f.context (block_number block) header_hash nonce
  some (r, s)
