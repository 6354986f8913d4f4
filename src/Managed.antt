-- ===== src/Managed.antt =====
-- The contexts that libethash/managed.cpp keeps: one that the threads share, and one for each thread.
-- A null pointer is `none`; a call runs under the mutex as far as the shared context is concerned, so
-- calls are whole steps. `full` tells the two copies of the code apart, the one for epoch_context and
-- the one for epoch_context_full. Threads are numbered.
pub mod Laws
pub mod Refinement
mod Tests
use quai_gpu_miner_archive.Ethash.Context.{FullContext, create_epoch_context}
use quai_gpu_miner_archive.Prelude.{ℕ, Bool, false, Option, none, some, ◌==◌, if◌then◌else◌, ◌>>=◌}

pub record Managed : Type 0 where
  pub shared_context : Option FullContext
  pub thread_local_context : ℕ → Option FullContext

abbrev pub empty : Managed
empty = record { shared_context = none; thread_local_context = λ thread. none }

-- `context && context->epoch_number == epoch_number`.
abbrev pub is_valid : Option FullContext → ℕ → Bool
is_valid none epoch_number = false
is_valid (some f) epoch_number = f.context.epoch_number == epoch_number

-- `thread_local_context = context`, in the given thread.
abbrev pub set_local : ℕ → Option FullContext → Managed → Managed
set_local thread context s = record s {
  thread_local_context = λ t. if t == thread then context else s.thread_local_context t;
}

module _ (calloc : ℕ → Bool) (full : Bool) (thread epoch_number : ℕ) where
  unfoldable pub build_shared : Managed → Option Managed
  build_shared s =
      let s = record s { shared_context = none } in
      create_epoch_context calloc epoch_number full >>= λ created.
      some (record s { shared_context = created })

  unfoldable pub update_local_context : Managed → Option Managed
  unfolding build_shared
  update_local_context s =
      let s = set_local thread none s in
      let built = build_shared s in
      (if is_valid s.shared_context epoch_number then some s else built) >>= λ s.
      some (set_local thread s.shared_context s)

  -- The result is what `*thread_local_context` is read through: `none` is the use of a null pointer.
  unfoldable pub get_global_epoch_context : Managed → Option (Option FullContext × Managed)
  unfolding update_local_context
  get_global_epoch_context s =
      let updated = update_local_context s in
      (if is_valid (s.thread_local_context thread) epoch_number then some s else updated) >>= λ s.
      some (s.thread_local_context thread, s)
