-- ===== src/Prelude/Chains.antt =====
-- Chains of fallible steps. `none` is a read outside an array, or a loop that ran out of fuel.
use Prim.Native.Nat.{ℕ, zero, suc, ◌+◌, ◌≤◌, ◌<◌}
use mathlib.Core.Path.{◌≡◌, refl, sym, subst}
use mathlib.Core.Logic.{inl, inr}
use mathlib.Core.Option.{Option, none, some}
use native.Mathlib.Omega.{arith}
use mathlib.Core.List.{List, [], ◌∷◌}
use quai_gpu_miner_archive.Prelude.Lists.{length, get_elem?, All}
use quai_gpu_miner_archive.Prelude.Tests.{Option-cases}

infixl 5 ◌>>=◌
abbrev pub ◌>>=◌ {ℓ κ} : {A : Type ℓ} {B : Type κ} → Option A → (A → Option B) → Option B
none >>= f = none
some a >>= f = f a

pub >>=-assoc {ℓ κ μ} :
    {A : Type ℓ} {B : Type κ} {C : Type μ} (m : Option A) (f : A → Option B) (g : B → Option C)
    → ((m >>= f) >>= g) ≡ (m >>= λ x. f x >>= g)
>>=-assoc none f g = refl
>>=-assoc (some a) f g = refl

-- Inversion of a chain that succeeds.
pub >>=-eq-some {ℓ κ} :
    {A : Type ℓ} {B : Type κ} (m : Option A) (f : A → Option B) {b : B}
    → (m >>= f) ≡ some b
    → (a : A) × (m ≡ some a) × (f a ≡ some b)
>>=-eq-some none f h = cc
>>=-eq-some (some a) f h = (a, refl, h)

-- Two values, one after the other.
abbrev pub pair {ℓ κ} : {A : Type ℓ} {B : Type κ} → Option A → Option B → Option (A × B)
pair m n = do x ← m; y ← n; some (x, y)

-- Two independent steps on the halves of a pair.
abbrev pub both {ℓ κ} :
    {A : Type ℓ} {B : Type κ} → (A → Option A) → (B → Option B) → A × B → Option (A × B)
both f g (a, b) = do x ← f a; y ← g b; some (x, y)

-- `for (i = first; i < first + n; ++i) s = body(i, s)`.
pub for_range {ℓ} : {S : Type ℓ} → ℕ → ℕ → (ℕ → S → Option S) → S → Option S
for_range zero i body s = some s
for_range (suc n) i body s = body i s >>= for_range n (i + 1) body

-- The step succeeds, with a result that meets `P`.
abbrev pub Returns {ℓ} : {A : Type ℓ} → (A → Type 0) → Option A → Type 0
Returns P none = ⊥
Returns P (some a) = P a

pub Returns->>= {ℓ κ} :
    {A : Type ℓ} (P : A → Type 0) {B : Type κ} (Q : B → Type 0)
    → (m : Option A) (f : A → Option B) → Returns P m
    → ((a : A) → P a → Returns Q (f a))
    → Returns Q (m >>= f)
Returns->>= P Q none f h k = absurd h
Returns->>= P Q (some a) f h k = k a h

pub Returns-mono {ℓ} :
    {A : Type ℓ} (P : A → Type 0) (Q : A → Type 0) (m : Option A)
    → Returns P m
    → ((a : A) → P a → Q a)
    → Returns Q m
Returns-mono P Q none h k = absurd h
Returns-mono P Q (some a) h k = k a h

pub Returns-eq_some {ℓ} :
    {A : Type ℓ} (P : A → Type 0) (m : Option A) → Returns P m → (a : A) × (m ≡ some a) × P a
Returns-eq_some P none h = absurd h
Returns-eq_some P (some a) h = (a, refl, h)

-- What is known of a result holds of the value that is returned.
pub Returns-at {ℓ} :
    {A : Type ℓ} (P : A → Type 0) (m : Option A) (a : A) → Returns P m → m ≡ some a → P a
Returns-at P m a h e = subst (Returns P) e h

-- A read in range of an array whose elements all meet `P`.
pub get_elem?-Returns {ℓ} :
    {A : Type ℓ} (P : A → Type 0) (xs : List A) (i : ℕ)
    → All P xs
    → i < length xs
    → Returns P (get_elem? xs i)
get_elem?-Returns P [] i h lt = absurd (omega arith)
get_elem?-Returns P (x ∷ xs) zero h lt = h.0
get_elem?-Returns P (x ∷ xs) (suc i) h lt = get_elem?-Returns P xs i h.1 (omega arith)

-- A body that succeeds and keeps `P` at every counter below `last` does so for the whole loop.
pub for_range-Returns {ℓ} :
    {S : Type ℓ} (P : S → Type 0) (body : ℕ → S → Option S) (last : ℕ)
    → ((i : ℕ) (s : S) → i < last → P s → Returns P (body i s))
    → (n i : ℕ) (s : S) → i + n ≤ last
    → P s
    → Returns P (for_range n i body s)
unfolding for_range
for_range-Returns P body last keep zero i s le h = h
for_range-Returns P body last keep (suc n) i s le h =
    Returns->>= P P (body i s) (for_range n (i + 1) body) (keep i s (omega arith) h)
      (λ t p. for_range-Returns P body last keep n (i + 1) t (omega arith) p)

bind-none {ℓ κ} :
    {A : Type ℓ} (B : Type κ) (m : Option A) → (m >>= λ x. let r : Option B = none in r) ≡ none
bind-none B none = refl
bind-none B (some a) = refl

-- Two loops run in step are the two loops run one after the other.
pub for_range-both {ℓ κ} :
    {A : Type ℓ} {B : Type κ} (f : ℕ → A → Option A) (g : ℕ → B → Option B) (n i : ℕ) (a : A)
    (b : B)
    → for_range n i (λ j. both (f j) (g j)) (a, b)
      ≡ (for_range n i f a >>= λ x. for_range n i g b >>= λ y. some (x, y))
unfolding for_range
for_range-both f g zero i a b = refl
for_range-both f g (suc n) i a b = elim (Option-cases (f i a)) [
  | inl e ↦ rw e
  | inr (x, e) ↦ elim (Option-cases (g i b)) [
    | inl e' ↦ rw (e, e') (sym (bind-none _ (for_range n (i + 1) f x)))
    | inr (y, e') ↦ rw (e, e') (for_range-both f g n (i + 1) x y)
  ]
]

-- A loop refines another: each turn of it succeeds with a state that is related to the one that the
-- other reaches.
pub for_range-refines {ℓ κ} :
    {S : Type ℓ} {T : Type κ} (R : S → T → Type 0) (f : ℕ → S → Option S) (g : ℕ → T → Option T)
    → ((i : ℕ) (s : S) (t : T)
        → R s t
        → (s' : S) × (t' : T) × (f i s ≡ some s') × (g i t ≡ some t') × R s' t')
    → (n i : ℕ) (s : S) (t : T) → R s t
    → (s' : S) × (t' : T) × (for_range n i f s ≡ some s') × (for_range n i g t ≡ some t') × R s' t'
unfolding for_range
for_range-refines R f g step zero i s t r = (s, t, refl, refl, r)
for_range-refines R f g step (suc n) i s t r =
    let (s1, t1, e1, d1, r1) = step i s t r in
    let (s2, t2, e2, d2, r2) = for_range-refines R f g step n (i + 1) s1 t1 r1 in
    (s2, t2, rw e1 e2, rw d1 d2, r2)

-- If the step succeeds, its result meets `P`.
abbrev pub Ensures {ℓ} : {A : Type ℓ} → (A → Type 0) → Option A → Type 0
Ensures P none = Unit
Ensures P (some a) = P a

pub Ensures->>= {ℓ κ} :
    {A : Type ℓ} (P : A → Type 0) {B : Type κ} (Q : B → Type 0) (m : Option A) (f : A → Option B)
    → Ensures P m
    → ((a : A) → P a → Ensures Q (f a))
    → Ensures Q (m >>= f)
Ensures->>= P Q none f h k = tt
Ensures->>= P Q (some a) f h k = k a h

pub Ensures-at {ℓ} :
    {A : Type ℓ} (P : A → Type 0) (m : Option A) (a : A) → Ensures P m → m ≡ some a → P a
Ensures-at P m a h e = subst (Ensures P) e h

pub Ensures-intro {ℓ} :
    {A : Type ℓ} (P : A → Type 0) (m : Option A) → ((a : A) → m ≡ some a → P a) → Ensures P m
Ensures-intro P none h = tt
Ensures-intro P (some a) h = h a refl
