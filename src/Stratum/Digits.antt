-- ===== src/Stratum/Digits.antt =====
-- Hexadecimal digits of numbers, as libpoolprotocols/stratum/EthStratumClient.cpp writes them.
use native.Mathlib.Nat.{pow-succ', mul_assoc, mul-le-mul_right, suc-mul, mul_left_comm}
use mathlib.Core.List.{append-nil, append_assoc}
use quai_gpu_miner_archive.CommonData.{hex_digit, dont_add}
use quai_gpu_miner_archive.Stratum.{Text}
use quai_gpu_miner_archive.Stratum.Texts.{hex_digits, digit_count, to_hex_number}
use quai_gpu_miner_archive.Prelude.{
  ℕ, zero, suc, ◌+◌, ◌-◌, ◌*◌, ◌/◌, ◌%◌, ◌^◌, ◌≤◌, ◌<◌, ◌≡◌, refl, sym, ap, ◌∙◌, inl, inr, true, [],
  ◌∷◌, ◌++◌, arith, ltb, ltb→lt, Bool-cases, length, drop, replicate, length-append,
}

pub length-hex_digits : (n v : ℕ) → length (hex_digits n v) ≡ n
unfolding hex_digits
length-hex_digits zero v = refl
length-hex_digits (suc n) v =
    length-append (hex_digits n (v / 16)) _ ∙ omega (arith, length-hex_digits n (v / 16))

pub shift : (q n : ℕ) → q * 16 ^ suc n ≡ 16 * (q * 16 ^ n)
shift q n = ap (λ p. q * p) whole ∙ mul_left_comm q 16 (16 ^ n)
  where
    whole : 16 ^ suc n ≡ 16 * 16 ^ n
    whole = omega arith

pow_add : (n a b : ℕ) → n ≡ a + b → 16 ^ n ≡ 16 ^ a * 16 ^ b
pow_add n zero b e = ap (λ m. 16 ^ m) (e ∙ none_more) ∙ once
  where
    none_more : 0 + b ≡ b
    none_more = omega arith

    once : 16 ^ b ≡ 1 * 16 ^ b
    once = omega arith
pow_add zero (suc a) b e = absurd (omega arith)
pow_add (suc n) (suc a) b e =
    pow-succ' 16 n
    ∙ ap (λ p. 16 * p) (pow_add n a b (omega arith))
    ∙ sym (mul_assoc 16 (16 ^ a) (16 ^ b))
    ∙ ap (λ p. p * 16 ^ b) (sym (pow-succ' 16 a))

-- Two parts within their digits make a number within all of them.
pub parts-lt : (a b q r : ℕ) → a + b ≡ 16 → q < 16 ^ a → r < 16 ^ b → q * 16 ^ b + r < 16 ^ 16
parts-lt a b q r e high low =
    let whole : 16 ^ 16 ≡ 16 ^ a * 16 ^ b = pow_add 16 a b (sym e) in
    let next : suc q * 16 ^ b ≤ 16 ^ a * 16 ^ b = mul-le-mul_right (16 ^ b) high in
    let more : suc q * 16 ^ b ≡ q * 16 ^ b + 16 ^ b = suc-mul q (16 ^ b) in
    omega (arith, whole, next, more)

-- The digits of a number in two parts.
pub hex_digits-append :
    (n a b q r : ℕ)
    → n ≡ a + b
    → r < 16 ^ b
    → hex_digits n (q * 16 ^ b + r) ≡ hex_digits a q ++ hex_digits b r
unfolding hex_digits
hex_digits-append n a zero q r e lt =
    ap (λ m. hex_digits m (q * 1 + r)) (e ∙ plain)
    ∙ ap (hex_digits a) low
    ∙ sym (append-nil (hex_digits a q))
  where
    plain : a + 0 ≡ a
    plain = omega arith

    low : q * 1 + r ≡ q
    low = omega arith
hex_digits-append zero a (suc b) q r e lt = absurd (omega arith)
hex_digits-append (suc n) a (suc b) q r e lt =
    ap (λ d. hex_digits n ((q * 16 ^ suc b + r) / 16) ++ hex_digit d ∷ []) digit
    ∙ ap (λ v. hex_digits n v ++ hex_digit (r % 16) ∷ []) rest
    ∙ ap (λ s. s ++ hex_digit (r % 16) ∷ [])
        (hex_digits-append n a b q (r / 16) (omega arith) (omega (arith, whole)))
    ∙ append_assoc (hex_digits a q) (hex_digits b (r / 16)) (hex_digit (r % 16) ∷ [])
  where
    whole : 16 ^ suc b ≡ 16 * 16 ^ b
    whole = omega arith

    scaled : q * 16 ^ suc b ≡ 16 * (q * 16 ^ b)
    scaled = shift q b

    digit : (q * 16 ^ suc b + r) % 16 ≡ r % 16
    digit = omega (arith, scaled)

    rest : (q * 16 ^ suc b + r) / 16 ≡ q * 16 ^ b + r / 16
    rest = omega (arith, scaled)

replicate-snoc : (m c : ℕ) → replicate m c ++ c ∷ [] ≡ c ∷ replicate m c
replicate-snoc zero c = refl
replicate-snoc (suc m) c = ap (λ s. c ∷ s) (replicate-snoc m c)

pub hex_digits-zero : (m : ℕ) → hex_digits m 0 ≡ replicate m 48
unfolding hex_digits
hex_digits-zero zero = refl
hex_digits-zero (suc m) = ap (λ s. s ++ 48 ∷ []) (hex_digits-zero m) ∙ replicate-snoc m 48

-- The count is enough for the number.
abbrev Counts : ℕ → ℕ → ℕ → Type 0
Counts fuel v k = (k ≤ suc fuel) × (v < 16 ^ k)

digit_count-Counts : (fuel v : ℕ) → v < 16 ^ suc fuel → Counts fuel v (digit_count fuel v)
unfolding digit_count
digit_count-Counts zero v lt = (omega arith, omega arith)
digit_count-Counts (suc fuel) v lt =
    let whole : 16 ^ suc (suc fuel) ≡ 16 * 16 ^ suc fuel = omega arith in
    let rest = digit_count-Counts fuel (v / 16) (omega (arith, whole)) in
    elim (Bool-cases (ltb v 16)) [
      | inl e ↦ rw e (omega arith, small e)
      | inr e ↦ rw e (omega (arith, rest.0), larger rest.1)
    ]
  where
    small : ltb v 16 ≡ true → v < 16 ^ 1
    small e = omega (arith, ltb→lt v 16 e)

    larger : v / 16 < 16 ^ digit_count fuel (v / 16) → v < 16 ^ suc (digit_count fuel (v / 16))
    larger fits =
        let more : 16 ^ suc (digit_count fuel (v / 16)) ≡ 16 * 16 ^ digit_count fuel (v / 16) =
          omega arith in
        omega (arith, more)

-- All sixteen digits are written.
pub to_hex_number-hex_digits : (v : ℕ) → v < 16 ^ 16 → to_hex_number v dont_add 16 ≡ hex_digits 16 v
unfolding to_hex_number
to_hex_number-hex_digits v lt =
    let (le, fits) = digit_count-Counts 15 v lt in
    let k = digit_count 15 v in
    let none_before : 0 * 16 ^ k + v ≡ v = omega arith in
    ap (λ s. s ++ hex_digits k v) (sym (hex_digits-zero (16 - k)))
    ∙ sym (hex_digits-append 16 (16 - k) k 0 v (omega arith) fits)
    ∙ ap (hex_digits 16) none_before

pub drop-append : (xs ys : Text) (n : ℕ) → length xs ≡ n → drop n (xs ++ ys) ≡ ys
drop-append [] ys zero e = refl
drop-append [] ys (suc n) e = absurd (omega arith)
drop-append (x ∷ xs) ys zero e = absurd (omega arith)
drop-append (x ∷ xs) ys (suc n) e = drop-append xs ys n (omega arith)
