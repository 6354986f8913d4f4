-- ===== src/Keccak/F1600.antt =====
-- libethash/keccakf1600.c: the permutation on 25 words of 64 bits, two rounds to an iteration.
pub mod Laws
use quai_gpu_miner_archive.Keccak.Lanes.{Lanes, load, store}
use quai_gpu_miner_archive.Prelude.{
  ℕ, zero, suc, ◌+◌, ◌-◌, ◌^◌, bit_and, bit_or, bit_xor, List, [], ◌∷◌, get_or, u64, ◌<<<◌, ◌>>>◌,
}

pub rol : ℕ → ℕ → ℕ
rol x s = bit_or (u64 (x <<< s)) (x >>> (64 - s))

-- `~x`.
pub complement : ℕ → ℕ
complement x = 2 ^ 64 - 1 - x

pub round_constants : List ℕ
round_constants =
    0x0000000000000001 ∷ 0x0000000000008082 ∷ 0x800000000000808a ∷ 0x8000000080008000
    ∷ 0x000000000000808b ∷ 0x0000000080000001 ∷ 0x8000000080008081 ∷ 0x8000000000008009
    ∷ 0x000000000000008a ∷ 0x0000000000000088 ∷ 0x0000000080008009 ∷ 0x000000008000000a
    ∷ 0x000000008000808b ∷ 0x800000000000008b ∷ 0x8000000000008089 ∷ 0x8000000000008003
    ∷ 0x8000000000008002 ∷ 0x8000000000000080 ∷ 0x000000000000800a ∷ 0x800000008000000a
    ∷ 0x8000000080008081 ∷ 0x8000000000008080 ∷ 0x0000000080000001 ∷ 0x8000000080008008 ∷ []

-- The first half of an iteration, from the words `Axx` to `Exx`.
pub round_even : ℕ → Lanes → Lanes
round_even rc s =
    let c_a = bit_xor (bit_xor (bit_xor (bit_xor s.ba s.ga) s.ka) s.ma) s.sa in
    let c_e = bit_xor (bit_xor (bit_xor (bit_xor s.be s.ge) s.ke) s.me) s.se in
    let c_i = bit_xor (bit_xor (bit_xor (bit_xor s.bi s.gi) s.ki) s.mi) s.si in
    let c_o = bit_xor (bit_xor (bit_xor (bit_xor s.bo s.go) s.ko) s.mo) s.so in
    let c_u = bit_xor (bit_xor (bit_xor (bit_xor s.bu s.gu) s.ku) s.mu) s.su in
    let d_a = bit_xor c_u (rol c_e 1) in
    let d_e = bit_xor c_a (rol c_i 1) in
    let d_i = bit_xor c_e (rol c_o 1) in
    let d_o = bit_xor c_i (rol c_u 1) in
    let d_u = bit_xor c_o (rol c_a 1) in
    let b1_a = bit_xor s.ba d_a in
    let b1_e = rol (bit_xor s.ge d_e) 44 in
    let b1_i = rol (bit_xor s.ki d_i) 43 in
    let b1_o = rol (bit_xor s.mo d_o) 21 in
    let b1_u = rol (bit_xor s.su d_u) 14 in
    let b2_a = rol (bit_xor s.bo d_o) 28 in
    let b2_e = rol (bit_xor s.gu d_u) 20 in
    let b2_i = rol (bit_xor s.ka d_a) 3 in
    let b2_o = rol (bit_xor s.me d_e) 45 in
    let b2_u = rol (bit_xor s.si d_i) 61 in
    let b3_a = rol (bit_xor s.be d_e) 1 in
    let b3_e = rol (bit_xor s.gi d_i) 6 in
    let b3_i = rol (bit_xor s.ko d_o) 25 in
    let b3_o = rol (bit_xor s.mu d_u) 8 in
    let b3_u = rol (bit_xor s.sa d_a) 18 in
    let b4_a = rol (bit_xor s.bu d_u) 27 in
    let b4_e = rol (bit_xor s.ga d_a) 36 in
    let b4_i = rol (bit_xor s.ke d_e) 10 in
    let b4_o = rol (bit_xor s.mi d_i) 15 in
    let b4_u = rol (bit_xor s.so d_o) 56 in
    let b5_a = rol (bit_xor s.bi d_i) 62 in
    let b5_e = rol (bit_xor s.go d_o) 55 in
    let b5_i = rol (bit_xor s.ku d_u) 39 in
    let b5_o = rol (bit_xor s.ma d_a) 41 in
    let b5_u = rol (bit_xor s.se d_e) 2 in
    record {
      ba = bit_xor (bit_xor b1_a (bit_and (complement b1_e) b1_i)) rc;
      be = bit_xor b1_e (bit_and (complement b1_i) b1_o);
      bi = bit_xor b1_i (bit_and (complement b1_o) b1_u);
      bo = bit_xor b1_o (bit_and (complement b1_u) b1_a);
      bu = bit_xor b1_u (bit_and (complement b1_a) b1_e);
      ga = bit_xor b2_a (bit_and (complement b2_e) b2_i);
      ge = bit_xor b2_e (bit_and (complement b2_i) b2_o);
      gi = bit_xor b2_i (bit_and (complement b2_o) b2_u);
      go = bit_xor b2_o (bit_and (complement b2_u) b2_a);
      gu = bit_xor b2_u (bit_and (complement b2_a) b2_e);
      ka = bit_xor b3_a (bit_and (complement b3_e) b3_i);
      ke = bit_xor b3_e (bit_and (complement b3_i) b3_o);
      ki = bit_xor b3_i (bit_and (complement b3_o) b3_u);
      ko = bit_xor b3_o (bit_and (complement b3_u) b3_a);
      ku = bit_xor b3_u (bit_and (complement b3_a) b3_e);
      ma = bit_xor b4_a (bit_and (complement b4_e) b4_i);
      me = bit_xor b4_e (bit_and (complement b4_i) b4_o);
      mi = bit_xor b4_i (bit_and (complement b4_o) b4_u);
      mo = bit_xor b4_o (bit_and (complement b4_u) b4_a);
      mu = bit_xor b4_u (bit_and (complement b4_a) b4_e);
      sa = bit_xor b5_a (bit_and (complement b5_e) b5_i);
      se = bit_xor b5_e (bit_and (complement b5_i) b5_o);
      si = bit_xor b5_i (bit_and (complement b5_o) b5_u);
      so = bit_xor b5_o (bit_and (complement b5_u) b5_a);
      su = bit_xor b5_u (bit_and (complement b5_a) b5_e);
    }

-- The second half, from `Exx` back to `Axx`.
pub round_odd : ℕ → Lanes → Lanes
round_odd rc s =
    let c_a = bit_xor (bit_xor (bit_xor (bit_xor s.ba s.ga) s.ka) s.ma) s.sa in
    let c_e = bit_xor (bit_xor (bit_xor (bit_xor s.be s.ge) s.ke) s.me) s.se in
    let c_i = bit_xor (bit_xor (bit_xor (bit_xor s.bi s.gi) s.ki) s.mi) s.si in
    let c_o = bit_xor (bit_xor (bit_xor (bit_xor s.bo s.go) s.ko) s.mo) s.so in
    let c_u = bit_xor (bit_xor (bit_xor (bit_xor s.bu s.gu) s.ku) s.mu) s.su in
    let d_a = bit_xor c_u (rol c_e 1) in
    let d_e = bit_xor c_a (rol c_i 1) in
    let d_i = bit_xor c_e (rol c_o 1) in
    let d_o = bit_xor c_i (rol c_u 1) in
    let d_u = bit_xor c_o (rol c_a 1) in
    let b1_a = bit_xor s.ba d_a in
    let b1_e = rol (bit_xor s.ge d_e) 44 in
    let b1_i = rol (bit_xor s.ki d_i) 43 in
    let b1_o = rol (bit_xor s.mo d_o) 21 in
    let b1_u = rol (bit_xor s.su d_u) 14 in
    let b2_a = rol (bit_xor s.bo d_o) 28 in
    let b2_e = rol (bit_xor s.gu d_u) 20 in
    let b2_i = rol (bit_xor s.ka d_a) 3 in
    let b2_o = rol (bit_xor s.me d_e) 45 in
    let b2_u = rol (bit_xor s.si d_i) 61 in
    let b3_a = rol (bit_xor s.be d_e) 1 in
    let b3_e = rol (bit_xor s.gi d_i) 6 in
    let b3_i = rol (bit_xor s.ko d_o) 25 in
    let b3_o = rol (bit_xor s.mu d_u) 8 in
    let b3_u = rol (bit_xor s.sa d_a) 18 in
    let b4_a = rol (bit_xor s.bu d_u) 27 in
    let b4_e = rol (bit_xor s.ga d_a) 36 in
    let b4_i = rol (bit_xor s.ke d_e) 10 in
    let b4_o = rol (bit_xor s.mi d_i) 15 in
    let b4_u = rol (bit_xor s.so d_o) 56 in
    let b5_a = rol (bit_xor s.bi d_i) 62 in
    let b5_e = rol (bit_xor s.go d_o) 55 in
    let b5_i = rol (bit_xor s.ku d_u) 39 in
    let b5_o = rol (bit_xor s.ma d_a) 41 in
    let b5_u = rol (bit_xor s.se d_e) 2 in
    record {
      ba = bit_xor (bit_xor b1_a (bit_and (complement b1_e) b1_i)) rc;
      be = bit_xor b1_e (bit_and (complement b1_i) b1_o);
      bi = bit_xor b1_i (bit_and (complement b1_o) b1_u);
      bo = bit_xor b1_o (bit_and (complement b1_u) b1_a);
      bu = bit_xor b1_u (bit_and (complement b1_a) b1_e);
      ga = bit_xor b2_a (bit_and (complement b2_e) b2_i);
      ge = bit_xor b2_e (bit_and (complement b2_i) b2_o);
      gi = bit_xor b2_i (bit_and (complement b2_o) b2_u);
      go = bit_xor b2_o (bit_and (complement b2_u) b2_a);
      gu = bit_xor b2_u (bit_and (complement b2_a) b2_e);
      ka = bit_xor b3_a (bit_and (complement b3_e) b3_i);
      ke = bit_xor b3_e (bit_and (complement b3_i) b3_o);
      ki = bit_xor b3_i (bit_and (complement b3_o) b3_u);
      ko = bit_xor b3_o (bit_and (complement b3_u) b3_a);
      ku = bit_xor b3_u (bit_and (complement b3_a) b3_e);
      ma = bit_xor b4_a (bit_and (complement b4_e) b4_i);
      me = bit_xor b4_e (bit_and (complement b4_i) b4_o);
      mi = bit_xor b4_i (bit_and (complement b4_o) b4_u);
      mo = bit_xor b4_o (bit_and (complement b4_u) b4_a);
      mu = bit_xor b4_u (bit_and (complement b4_a) b4_e);
      sa = bit_xor b5_a (bit_and (complement b5_e) b5_i);
      se = bit_xor b5_e (bit_and (complement b5_i) b5_o);
      si = bit_xor b5_i (bit_and (complement b5_o) b5_u);
      so = bit_xor b5_o (bit_and (complement b5_u) b5_a);
      su = bit_xor b5_u (bit_and (complement b5_a) b5_e);
    }

-- The loop, with `n` iterations left.
pub iterate : ℕ → ℕ → Lanes → Lanes
iterate zero round s = s
iterate (suc n) round s = iterate n (round + 2) (
    round_odd (get_or round_constants (round + 1) 0)
      (round_even (get_or round_constants round 0) s))

unfoldable pub keccakf1600 : List ℕ → List ℕ
unfolding iterate round_even round_odd round_constants rol complement load store
keccakf1600 state = store (iterate 12 0 (load state))
