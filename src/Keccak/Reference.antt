-- ===== src/Keccak/Reference.antt =====
-- Keccak-p by its definition: the five steps on a 5 by 5 array of words, the rotation offsets and
-- the round constants by their generating rules.
use quai_gpu_miner_archive.Prelude.{
  ℕ, zero, suc, ◌+◌, ◌-◌, ◌*◌, ◌/◌, ◌%◌, ◌^◌, bit_and, bit_or, bit_xor, ◌&&◌, List, [], ◌∷◌, ◌==◌,
  if◌then◌else◌, get_or,
}

-- The word at column `x` and row `y`.
pub lane : List ℕ → ℕ → ℕ → ℕ
lane a x y = get_or a (5 * (y % 5) + x % 5) 0

-- The offset of column `x` and row `y`: the walk (x, y) to (y, 2x + 3y) from (1, 0) reaches it at
-- step t, with offset (t + 1) (t + 2) / 2. The word at (0, 0) is not rotated.
pub walk : ℕ → ℕ → ℕ → ℕ → ℕ → ℕ → ℕ
walk zero t x y i j = 0
walk (suc n) t x y i j =
    let rest = walk n (t + 1) y ((2 * x + 3 * y) % 5) i j in
    if x == i && y == j then (t + 1) * (t + 2) / 2 else rest

unfoldable pub offset : ℕ → ℕ → ℕ
unfolding walk
offset x y = walk 24 0 1 0 (x % 5) (y % 5)

module _ (w : ℕ) where
  -- Rotation left by `s` below `w`.
  pub rot : ℕ → ℕ → ℕ
  rot x zero = x
  rot x (suc s) = bit_or (x * 2 ^ suc s % 2 ^ w) (x / 2 ^ (w - suc s))

  pub column : List ℕ → ℕ → ℕ
  column a x =
      bit_xor (bit_xor (bit_xor (bit_xor (lane a x 0) (lane a x 1)) (lane a x 2)) (lane a x 3))
        (lane a x 4)

  pub theta : List ℕ → ℕ → ℕ → ℕ
  theta a x y = bit_xor (lane a x y) (bit_xor (column a (x + 4)) (rot (column a (x + 1)) 1))

  -- `rho` and `pi`: the word at (y, 2x + 3y) is that of (x, y), rotated.
  pub rho_pi : List ℕ → ℕ → ℕ → ℕ
  rho_pi a x y = let from = (x + 3 * y) % 5 in rot (theta a from (x % 5)) (offset from (x % 5) % w)

  pub chi : List ℕ → ℕ → ℕ → ℕ
  chi a x y = bit_xor (rho_pi a x y) (bit_and (2 ^ w - 1 - rho_pi a (x + 1) y) (rho_pi a (x + 2) y))

  abbrev pub iota : ℕ → ℕ → ℕ → ℕ
  iota rc zero word = bit_xor word rc
  iota rc (suc i) word = word

  pub words : ℕ → ℕ → ℕ → List ℕ → List ℕ
  words zero i rc a = []
  words (suc n) i rc a = iota rc i (chi a (i % 5) (i / 5)) ∷ words n (suc i) rc a

  unfoldable pub keccak_round : ℕ → List ℕ → List ℕ
  unfolding words chi rho_pi theta column rot offset lane
  keccak_round rc a = words 25 0 rc a

  -- The rounds, one for each constant of the list.
  unfoldable pub rounds : List ℕ → List ℕ → List ℕ
  rounds [] a = a
  rounds (rc ∷ rcs) a = rounds rcs (keccak_round rc a)

-- A step of the 8-bit feedback register that generates the bits of the round constants.
pub feedback : ℕ → ℕ
feedback r = bit_xor (r * 2) (r / 128 * 0x71) % 256

-- The register after the seven steps of a round, and the constant with bit 2 ^ j - 1 set wherever
-- step j puts a one in place.
pub constant : ℕ → ℕ → ℕ → ℕ → ℕ × ℕ
constant zero j r rc = (r, rc)
constant (suc n) j r rc =
    constant n (j + 1) (feedback r)
      (if bit_and (feedback r) 2 == 0 then rc else bit_xor rc (2 ^ (2 ^ j - 1)))

pub constants : ℕ → ℕ → ℕ → List ℕ
constants w zero r = []
constants w (suc n) r = let (r', rc) = constant 7 0 r 0 in (rc % 2 ^ w) ∷ constants w n r'

-- Keccak-p on words of `w` bits, with `n` rounds.
unfoldable pub keccak_p : ℕ → ℕ → List ℕ → List ℕ
unfolding rounds constants constant feedback
keccak_p w n a = rounds w (constants w n 1) a
