-- ===== src/Managed/Laws.antt =====
-- The contexts that libethash/managed.cpp hands out are those that create_epoch_context makes.
use quai_gpu_miner_archive.Ethash.Cache.{build_light_cache}
use quai_gpu_miner_archive.Ethash.Epoch.{
  calculate_light_cache_num_items, calculate_full_dataset_num_items, calculate_epoch_seed,
}
use quai_gpu_miner_archive.Ethash.Context.{FullContext, create_epoch_context, fill_l1}
use quai_gpu_miner_archive.Ethash.Context.Laws.{bare_context, create-some}
use quai_gpu_miner_archive.Managed.{Managed, empty, is_valid, set_local}
use quai_gpu_miner_archive.Prelude.{
  ℕ, ◌≡◌, refl, sym, ap, ◌∙◌, subst, Bool, true, false, Option, none, some, arith, ◌==◌,
  if◌then◌else◌, ==_iff, if-both, >>=-eq-some, for_range,
}

-- The specification: the context of an epoch, which depends on nothing else.
abbrev pub IsContextOf : Bool → ℕ → FullContext → Type 0
IsContextOf full epoch_number f =
    (create_epoch_context (λ n. true) epoch_number full ≡ some (some f))
    × (f.context.epoch_number ≡ epoch_number)

-- A block that is built has been allocated.
allocated-lem {ℓ} :
    {F : Type ℓ} (b : Bool) (built : Option (Option F)) (f : F)
    → (if b then built else some none) ≡ some (some f)
    → built ≡ some (some f)
allocated-lem true built f h = h
allocated-lem false built f h = cc

epoch_or : ℕ → Option (Option FullContext) → ℕ
epoch_or e (some (some f)) = f.context.epoch_number
epoch_or e _ = e

-- Every context that is created is that of the specification, whatever memory there was for others.
pub create_epoch_context-IsContextOf :
    (calloc : ℕ → Bool) (e : ℕ) (full : Bool) (f : FullContext)
    → create_epoch_context calloc e full ≡ some (some f)
    → IsContextOf full e f
unfolding create_epoch_context epoch_or
create_epoch_context-IsContextOf calloc e full f h =
    let (l, found_light, h) = >>=-eq-some (calculate_light_cache_num_items e) _ h in
    let (d, found_full, h) = >>=-eq-some (calculate_full_dataset_num_items e) _ h in
    let (light_cache, built, h) =
      >>=-eq-some (build_light_cache _ l (calculate_epoch_seed e)) _
        (allocated-lem (calloc _) _ f h) in
    let (items, filled, h) =
      >>=-eq-some (for_range 64 0 (fill_l1 (bare_context e l d light_cache)) _) _ h in
    (
      create-some (λ n. true) e full l d light_cache items (λ n. refl) found_light found_full built
            filled
          ∙ h,
      ap (epoch_or e) (sym h),
    )

-- A kept context is that of its own epoch.
abbrev pub IsKept : Bool → Option FullContext → Type 0
IsKept full none = Unit
IsKept full (some f) = IsContextOf full f.context.epoch_number f

abbrev pub IsSound : Bool → Managed → Type 0
IsSound full s = IsKept full s.shared_context × ((t : ℕ) → IsKept full (s.thread_local_context t))

pub empty-IsSound : (full : Bool) → IsSound full empty
empty-IsSound full = (tt, λ t. tt)

pub set_local-IsSound :
    (full : Bool) (thread : ℕ) (context : Option FullContext) (s : Managed)
    → IsKept full context
    → IsSound full s
    → IsSound full (set_local thread context s)
set_local-IsSound full thread context s k sound = (
  sound.0,
  λ t. if-both (IsKept full) (t == thread) context (s.thread_local_context t) k (sound.1 t),
)

pub set_local_self :
    (thread : ℕ) (context : Option FullContext) (s : Managed)
    → (set_local thread context s).thread_local_context thread ≡ context
set_local_self thread context s = ground arith

-- A context that passes the test is the one that is asked for.
pub valid-IsContextOf :
    (full : Bool) (e : ℕ) (o : Option FullContext)
    → IsKept full o
    → is_valid o e ≡ true
    → (f : FullContext) × (o ≡ some f) × IsContextOf full e f
valid-IsContextOf full e none k h = absurd (cc h)
valid-IsContextOf full e (some f) k h =
    let same = (==_iff f.context.epoch_number e).0 h in
    (f, refl, subst (λ n. IsContextOf full n f) same k)

pub IsContextOf-valid :
    (full : Bool) (e : ℕ) (f : FullContext) → IsContextOf full e f → is_valid (some f) e ≡ true
IsContextOf-valid full e f c = (==_iff f.context.epoch_number e).1 c.1
