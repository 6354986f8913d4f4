-- ===== src/Managed/Refinement.antt =====
-- The contexts that get_global_epoch_context of libethash/managed.cpp hands out, for any calls of any
-- threads before it.
use quai_gpu_miner_archive.Ethash.Context.{FullContext, create_epoch_context}
use quai_gpu_miner_archive.Ethash.Context.Laws.{create_epoch_context-IsCreated}
use quai_gpu_miner_archive.Managed.{
  Managed, empty, is_valid, set_local, build_shared, update_local_context, get_global_epoch_context,
}
use quai_gpu_miner_archive.Managed.Laws.{
  IsContextOf, IsKept, IsSound, create_epoch_context-IsContextOf, set_local-IsSound, set_local_self,
  valid-IsContextOf, IsContextOf-valid, empty-IsSound,
}
use quai_gpu_miner_archive.Prelude.{
  ℕ, ◌<◌, ◌≡◌, refl, sym, ap, ◌∙◌, subst, inl, inr, Bool, true, Option, none, some, if◌then◌else◌,
  Bool-cases, Option-cases, if-both, Returns, Returns-eq_some, Ensures, Ensures->>=, Ensures-at,
  Ensures-intro,
}

-- A call of a thread that returns, with whatever memory there is.
pub data Step (full : Bool) : Managed → Managed → Type 0 where
  gets :
      (calloc : ℕ → Bool) (thread epoch_number : ℕ) (r : Option FullContext) (s s' : Managed)
      → get_global_epoch_context calloc full thread epoch_number s ≡ some (r, s')
      → Step full s s'

pub data Reachable (full : Bool) : Managed → Type 0 where
  begins : Reachable full empty
  then_step : {s s' : Managed} → Reachable full s → Step full s s' → Reachable full s'

module _ (calloc : ℕ → Bool) (full : Bool) (thread e : ℕ) where
  created-IsKept : Ensures (IsKept full) (create_epoch_context calloc e full)
  created-IsKept = Ensures-intro (IsKept full) (create_epoch_context calloc e full) (λ o h.
      elim (Option-cases o) [
        | inl n ↦ subst (IsKept full) (sym n) tt
        | inr (f, found) ↦
            (let c = create_epoch_context-IsContextOf calloc e full f (h ∙ ap some found) in
              subst (IsKept full) (sym found) (subst (λ n. IsContextOf full n f) (sym c.1) c))
      ])

  build_shared-IsSound :
      (s : Managed) → IsSound full s → Ensures (IsSound full) (build_shared calloc full thread e s)
  unfolding build_shared
  build_shared-IsSound s sound =
      Ensures->>= (IsKept full) (IsSound full) (create_epoch_context calloc e full) _ created-IsKept
        (λ o k. (k, sound.1))

  update_local_context-IsSound :
      (s : Managed)
      → IsSound full s
      → Ensures (IsSound full) (update_local_context calloc full thread e s)
  unfolding update_local_context
  update_local_context-IsSound s sound =
      let reset = set_local thread none s in
      let reset_sound = set_local-IsSound full thread none s tt sound in
      Ensures->>= (IsSound full) (IsSound full)
        (if is_valid reset.shared_context e
          then some reset
          else build_shared calloc full thread e reset)
        _
        (if-both (Ensures (IsSound full)) (is_valid reset.shared_context e) (some reset)
          (build_shared calloc full thread e reset) reset_sound
          (build_shared-IsSound reset reset_sound))
        (λ t k. set_local-IsSound full thread t.shared_context t k.0 k)

  get_global_epoch_context-IsSound :
      (s : Managed)
      → IsSound full s
      → Ensures
          (λ (r : Option FullContext × Managed). IsSound full r.1)
          (get_global_epoch_context calloc full thread e s)
  unfolding get_global_epoch_context
  get_global_epoch_context-IsSound s sound =
      let updated = update_local_context calloc full thread e s in
      let valid = is_valid (s.thread_local_context thread) e in
      Ensures->>= (IsSound full) (λ (r : Option FullContext × Managed). IsSound full r.1)
        (if valid then some s else updated) _
        (if-both (Ensures (IsSound full)) valid (some s) updated sound
          (update_local_context-IsSound s sound))
        (λ t k. k)

managed-IsSound : (full : Bool) (s : Managed) → Reachable full s → IsSound full s
managed-IsSound full _ begins = empty-IsSound full
managed-IsSound full _ (then_step r (gets calloc thread e o s s' h)) =
    Ensures-at (λ (r : Option FullContext × Managed). IsSound full r.1)
      (get_global_epoch_context calloc full thread e s) (o, s')
      (get_global_epoch_context-IsSound calloc full thread e s (managed-IsSound full s r)) h

-- A thread that has the context of the epoch gets it again, and nothing changes.
kept_lem :
    (calloc : ℕ → Bool) (full : Bool) (thread e : ℕ) (s : Managed) (f : FullContext)
    → s.thread_local_context thread ≡ some f
    → IsContextOf full e f
    → get_global_epoch_context calloc full thread e s ≡ some (some f, s)
unfolding get_global_epoch_context
kept_lem calloc full thread e s f found c =
    rw (ap (λ o. is_valid o e) found ∙ IsContextOf-valid full e f c) (ap (λ o. some (o, s)) found)

module _ (calloc : ℕ → Bool) (full : Bool) (thread e : ℕ) (lt : e < 32640)
    (memory : (n : ℕ) → calloc n ≡ true) where
  -- What the slow path leaves.
  IsUpdated : Managed → Type 0
  IsUpdated s = (f : FullContext) × (s.thread_local_context thread ≡ some f) × IsContextOf full e f

  shared-IsUpdated :
      (s : Managed) (f : FullContext)
      → s.shared_context ≡ some f
      → IsContextOf full e f
      → IsUpdated (set_local thread s.shared_context s)
  unfolding IsUpdated
  shared-IsUpdated s f found c = (f, set_local_self thread s.shared_context s ∙ found, c)

  update_local_context-IsUpdated :
      (s : Managed)
      → IsSound full s
      → Returns IsUpdated (update_local_context calloc full thread e s)
  unfolding update_local_context build_shared
  update_local_context-IsUpdated s sound = elim (Bool-cases (is_valid s.shared_context e)) [
    | inl valid ↦
        (let (f, found, c) = valid-IsContextOf full e s.shared_context sound.0 valid in
          rw valid (shared-IsUpdated (set_local thread none s) f found c))
    | inr stale ↦
        (let (f, created, _) = create_epoch_context-IsCreated calloc e full lt memory in
          let c = create_epoch_context-IsContextOf calloc e full f created in
          let built = record (set_local thread none s) { shared_context = some f } in
          rw (stale, created) (shared-IsUpdated built f refl c))
  ]

-- The managed contexts implement a function of the epoch. After any calls of any threads, whatever
-- memory there was for those, a call for one of the first 32640 epochs with memory at hand returns
-- the context that create_epoch_context makes for that epoch, never a null pointer, and it leaves a
-- state in which the thread's further calls for the epoch return the same context and change nothing,
-- even when there is no more memory.
pub get_global_epoch_context-IsContextOf :
    (full : Bool) (s : Managed)
    → Reachable full s
    → (calloc : ℕ → Bool) (thread e : ℕ) → e < 32640
    → ((n : ℕ) → calloc n ≡ true)
    → (f : FullContext) × (s' : Managed) × (get_global_epoch_context calloc full thread e s
        ≡ some (some f, s'))
      × IsContextOf full e f
      × Reachable full s'
      × ((calloc' : ℕ → Bool)
          → get_global_epoch_context calloc' full thread e s' ≡ some (some f, s'))
unfolding get_global_epoch_context IsUpdated
get_global_epoch_context-IsContextOf full s reachable calloc thread e lt memory =
    let sound = managed-IsSound full s reachable in
    elim (Bool-cases (is_valid (s.thread_local_context thread) e)) [
      | inl valid ↦
          (let (f, found, c) =
              valid-IsContextOf full e (s.thread_local_context thread) (sound.1 thread) valid in
            (
              f,
              s,
              kept_lem calloc full thread e s f found c,
              c,
              reachable,
              λ calloc'. kept_lem calloc' full thread e s f found c,
            ))
      | inr stale ↦
          (let (s', updated, u) =
              Returns-eq_some (IsUpdated calloc full thread e lt memory)
                (update_local_context calloc full thread e s)
                (update_local_context-IsUpdated calloc full thread e lt memory s sound) in
            let (f, found, c) = u in
            let got : get_global_epoch_context calloc full thread e s ≡ some (some f, s') =
              rw (stale, updated) (ap (λ o. some (o, s')) found) in
            (
              f,
              s',
              got,
              c,
              then_step reachable (gets calloc thread e (some f) s s' got),
              λ calloc'. kept_lem calloc' full thread e s' f found c,
            ))
    ]
