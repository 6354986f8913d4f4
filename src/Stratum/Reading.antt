-- ===== src/Stratum/Reading.antt =====
-- Hexadecimal digits of numbers, as libpoolprotocols/stratum/EthStratumClient.cpp reads them.
use mathlib.Core.List.{append-nil, append_assoc}
use quai_gpu_miner_archive.CommonData.{hex_digit}
use quai_gpu_miner_archive.Stratum.{Text}
use quai_gpu_miner_archive.Stratum.Texts.{
  has_digit, skip_spaces, skip_0x, is_space, hex_digits, read_digits, read_hex, stoul,
}
use quai_gpu_miner_archive.CommonData.Laws.{from_hex_digit-hex_digit}
use quai_gpu_miner_archive.Prelude.{
  ℕ, zero, suc, ◌+◌, ◌*◌, ◌/◌, ◌%◌, ◌^◌, ◌<◌, ◌≡◌, refl, sym, ap, ◌∙◌, true, false, some, [], ◌∷◌,
  ◌++◌, arith, ◌==◌, lt→ltb, lt→leb,
}
use quai_gpu_miner_archive.Stratum.Digits.{shift}

pub read_digits-hex_digit :
    (d m : ℕ) (s : Text)
    → d < 16
    → read_digits 16 m (hex_digit d ∷ s) ≡ read_digits 16 (m * 16 + d) s
unfolding read_digits
read_digits-hex_digit d m s low =
    rw (read_digits, from_hex_digit-hex_digit d low, lt→ltb d 16 low) refl

-- The number that digits are read as, behind others.
read_digits-hex_digits :
    (n v m : ℕ) (s : Text)
    → v < 16 ^ n
    → read_digits 16 m (hex_digits n v ++ s) ≡ read_digits 16 (m * 16 ^ n + v) s
unfolding hex_digits read_digits
read_digits-hex_digits zero v m s lt = ap (λ k. read_digits 16 k s) same
  where
    same : m ≡ m * 1 + v
    same = omega arith
read_digits-hex_digits (suc n) v m s lt =
    ap (read_digits 16 m) (append_assoc (hex_digits n (v / 16)) (hex_digit (v % 16) ∷ []) s)
    ∙ read_digits-hex_digits n (v / 16) m (hex_digit (v % 16) ∷ s) (omega (arith, whole))
    ∙ read_digits-hex_digit (v % 16) (m * 16 ^ n + v / 16) s (omega arith)
    ∙ ap (λ k. read_digits 16 k s) next
  where
    whole : 16 ^ suc n ≡ 16 * 16 ^ n
    whole = omega arith

    scaled : m * 16 ^ suc n ≡ 16 * (m * 16 ^ n)
    scaled = shift m n

    next : (m * 16 ^ n + v / 16) * 16 + v % 16 ≡ m * 16 ^ suc n + v
    next = omega (arith, scaled)

skip_spaces-digit : (d : ℕ) (s : Text) → d < 16 → skip_spaces (hex_digit d ∷ s) ≡ hex_digit d ∷ s
unfolding skip_spaces
skip_spaces-digit d s low = rw (skip_spaces, no_space) refl
  where
    no_space : is_space (hex_digit d) ≡ false
    no_space = ground arith

skip_0x-digits :
    (d e : ℕ) (s : Text)
    → e < 16
    → skip_0x (hex_digit d ∷ hex_digit e ∷ s) ≡ hex_digit d ∷ hex_digit e ∷ s
unfolding skip_0x
skip_0x-digits d e s low = ground (arith, no_x, no_upper_x)
  where
    no_x : (hex_digit e == 120) ≡ false
    no_x = ground arith

    no_upper_x : (hex_digit e == 88) ≡ false
    no_upper_x = ground arith

has_digit-hex_digit : (d : ℕ) (s : Text) → d < 16 → has_digit 16 (hex_digit d ∷ s) ≡ true
has_digit-hex_digit d s low = rw (has_digit, from_hex_digit-hex_digit d low, lt→ltb d 16 low) refl

-- Two digits or more are read as they stand.
pub read_hex-digits :
    (d e : ℕ) (s : Text)
    → d < 16
    → e < 16
    → read_hex (hex_digit d ∷ hex_digit e ∷ s)
      ≡ some (false, read_digits 16 0 (hex_digit d ∷ hex_digit e ∷ s))
unfolding read_hex
read_hex-digits d e s low lower =
    rw
      (
        read_hex,
        skip_spaces-digit d (hex_digit e ∷ s) low,
        no_minus,
        no_plus,
        skip_0x-digits d e s lower,
        has_digit-hex_digit d (hex_digit e ∷ s) low,
      )
      refl
  where
    no_minus : (hex_digit d == 45) ≡ false
    no_minus = ground arith

    no_plus : (hex_digit d == 43) ≡ false
    no_plus = ground arith

read_hex-hex_digits :
    (v : ℕ) → read_hex (hex_digits 16 v) ≡ some (false, read_digits 16 0 (hex_digits 16 v))
unfolding hex_digits
read_hex-hex_digits v =
    let first : ℕ = v / 16 / 16 / 16 / 16 / 16 / 16 / 16 / 16 / 16 / 16 / 16 / 16 / 16 / 16 in
    read_hex-digits (first / 16 % 16) (first % 16) _ (omega arith) (omega arith)

-- Sixteen digits are read as the number.
pub stoul-hex_digits : (v : ℕ) → v < 16 ^ 16 → stoul (hex_digits 16 v) ≡ some v
unfolding stoul read_digits
stoul-hex_digits v lt =
    rw (stoul, read_hex-hex_digits v, value, lt→leb (2 ^ 64) v (omega arith)) refl
  where
    same : 0 * 16 ^ 16 + v ≡ v
    same = omega arith

    value : read_digits 16 0 (hex_digits 16 v) ≡ v
    value =
        ap (read_digits 16 0) (sym (append-nil (hex_digits 16 v)))
        ∙ read_digits-hex_digits 16 v 0 [] lt
        ∙ same
