-- ===== src/Keccak/Lanes.antt =====
-- The local words `Aba` to `Asu` of the two permutations, and how they are read from and written to
-- the array `state`.
use quai_gpu_miner_archive.Prelude.{
  ℕ, zero, suc, ◌≡◌, refl, sym, ap, ◌∙◌, List, [], ◌∷◌, length, get_or,
}

pub record Lanes : Type 0 where
  pub ba : ℕ
  pub be : ℕ
  pub bi : ℕ
  pub bo : ℕ
  pub bu : ℕ
  pub ga : ℕ
  pub ge : ℕ
  pub gi : ℕ
  pub go : ℕ
  pub gu : ℕ
  pub ka : ℕ
  pub ke : ℕ
  pub ki : ℕ
  pub ko : ℕ
  pub ku : ℕ
  pub ma : ℕ
  pub me : ℕ
  pub mi : ℕ
  pub mo : ℕ
  pub mu : ℕ
  pub sa : ℕ
  pub se : ℕ
  pub si : ℕ
  pub so : ℕ
  pub su : ℕ

unfoldable pub load : List ℕ → Lanes
load state = record {
  ba = get_or state 0 0;
  be = get_or state 1 0;
  bi = get_or state 2 0;
  bo = get_or state 3 0;
  bu = get_or state 4 0;
  ga = get_or state 5 0;
  ge = get_or state 6 0;
  gi = get_or state 7 0;
  go = get_or state 8 0;
  gu = get_or state 9 0;
  ka = get_or state 10 0;
  ke = get_or state 11 0;
  ki = get_or state 12 0;
  ko = get_or state 13 0;
  ku = get_or state 14 0;
  ma = get_or state 15 0;
  me = get_or state 16 0;
  mi = get_or state 17 0;
  mo = get_or state 18 0;
  mu = get_or state 19 0;
  sa = get_or state 20 0;
  se = get_or state 21 0;
  si = get_or state 22 0;
  so = get_or state 23 0;
  su = get_or state 24 0;
}

unfoldable pub store : Lanes → List ℕ
store s =
    s.ba ∷ s.be ∷ s.bi ∷ s.bo ∷ s.bu ∷ s.ga ∷ s.ge ∷ s.gi ∷ s.go ∷ s.gu ∷ s.ka ∷ s.ke ∷ s.ki ∷ s.ko
    ∷ s.ku ∷ s.ma ∷ s.me ∷ s.mi ∷ s.mo ∷ s.mu ∷ s.sa ∷ s.se ∷ s.si ∷ s.so ∷ s.su ∷ []

reads : ℕ → ℕ → List ℕ → List ℕ
reads zero i xs = []
reads (suc n) i xs = get_or xs i 0 ∷ reads n (suc i) xs

reads-cons : (n i x : ℕ) (xs : List ℕ) → reads n (suc i) (x ∷ xs) ≡ reads n i xs
unfolding reads
reads-cons zero i x xs = refl
reads-cons (suc n) i x xs = rw (reads-cons n (suc i) x xs)

reads-length : (xs : List ℕ) → reads (length xs) 0 xs ≡ xs
unfolding reads
reads-length [] = refl
reads-length (x ∷ xs) = rw (reads-cons (length xs) 0 x xs, reads-length xs)

-- Nothing of an array of 25 words is lost.
pub store-load : (state : List ℕ) → length state ≡ 25 → store (load state) ≡ state
unfolding store load reads
store-load state e = ap (λ n. reads n 0 state) (sym e) ∙ reads-length state
