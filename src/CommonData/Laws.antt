-- ===== src/CommonData/Laws.antt =====
-- Hexadecimal text of libdevcore/CommonData.cpp, there and back.
use quai_gpu_miner_archive.CommonData.{
  WhenError, HexPrefix, hex_prefix, from_hex_digit, from_pairs, skip_prefix, from_digits, from_hex,
  hex_digit, hex_byte, hex_bytes, to_hex, dont_add,
}
use quai_gpu_miner_archive.Prelude.{
  ℕ, ◌+◌, ◌*◌, ◌/◌, ◌%◌, ◌≤◌, ◌<◌, ◌≡◌, refl, sym, ap, subst, ◌⊎◌, inl, inr, Bool, true, false,
  ◌&&◌, some, List, [], ◌∷◌, ◌++◌, arith, ltb, ◌==◌, if◌then◌else◌, lt→ltb, ne→==, length, All,
}

unfoldable pub IsByte : ℕ → Type 0
IsByte b = b < 256

pub from_hex_digit-hex_digit : (n : ℕ) → n < 16 → from_hex_digit (hex_digit n) ≡ some n
unfolding from_hex_digit
from_hex_digit-hex_digit n lt = ground arith

digit_not_x : (n : ℕ) → n < 16 → (hex_digit n == 120) ≡ false
digit_not_x n lt = ground arith

lt_or_le : (a b : ℕ) → (a < b) ⊎ (b ≤ a)
lt_or_le a b = ground arith

le→ltb : (a b : ℕ) → b ≤ a → ltb a b ≡ false
le→ltb a b h = ground arith

-- Two characters for every byte.
hex_byte_two : (b : ℕ) → IsByte b → hex_byte 2 b ≡ hex_digit (b / 16) ∷ hex_digit (b % 16) ∷ []
unfolding hex_byte IsByte
hex_byte_two b lt = elim (lt_or_le b 16) [
  | inl small ↦
      (let high : b / 16 ≡ 0 = omega arith in
        let low : b % 16 ≡ b = omega arith in rw (lt→ltb b 16 small, high, low) refl)
  | inr large ↦ rw (le→ltb b 16 large) refl
]

from_pairs-hex_bytes :
    (bytes : List ℕ) → All IsByte bytes → from_pairs (hex_bytes bytes) ≡ some bytes
unfolding from_pairs hex_bytes IsByte
from_pairs-hex_bytes [] h = refl
from_pairs-hex_bytes (b ∷ bytes) h =
    let high : b / 16 < 16 = omega (arith, h.0) in
    let whole : b / 16 * 16 + b % 16 ≡ b = omega arith in
    rw
      (
        hex_byte_two b h.0,
        from_hex_digit-hex_digit (b / 16) high,
        from_hex_digit-hex_digit (b % 16) (omega arith),
        from_pairs-hex_bytes bytes h.1,
      )
      (ap (λ (n : ℕ). some (n ∷ bytes)) whole)

length-hex_bytes : (bytes : List ℕ) → All IsByte bytes → length (hex_bytes bytes) ≡ 2 * length bytes
unfolding hex_bytes
length-hex_bytes [] h = omega arith
length-hex_bytes (b ∷ bytes) h = rw (hex_byte_two b h.0) (omega (arith, length-hex_bytes bytes h.1))

and_false_lem : (b : Bool) (x y : List ℕ) → (if b && false then x else y) ≡ y
and_false_lem true x y = refl
and_false_lem false x y = refl

-- A text of an even number of characters, of which those behind the prefix are digits.
from_even :
    (s digits bytes : List ℕ) (when_error : WhenError)
    → length s % 2 ≡ 0
    → skip_prefix s ≡ digits
    → from_pairs digits ≡ some bytes
    → from_hex s when_error ≡ some bytes
unfolding from_hex from_digits
from_even s digits bytes when_error even skipped parsed =
    let is_even : (length s % 2 == 1) ≡ false = ne→== (length s % 2) 1 (λ e. omega arith) in
    rw (from_hex, is_even, skipped, parsed) refl

-- No digit is an x.
skip_prefix-hex_bytes :
    (bytes : List ℕ) → All IsByte bytes → skip_prefix (hex_bytes bytes) ≡ hex_bytes bytes
unfolding skip_prefix hex_bytes
skip_prefix-hex_bytes [] h = refl
skip_prefix-hex_bytes (b ∷ bytes) h =
    rw (hex_byte_two b h.0, digit_not_x (b % 16) (omega arith))
      (and_false_lem (hex_digit (b / 16) == 48) (hex_bytes bytes) _)

to_hex-hex_bytes : (bytes : List ℕ) → to_hex bytes 2 dont_add ≡ hex_bytes bytes
unfolding to_hex hex_bytes
to_hex-hex_bytes [] = refl
to_hex-hex_bytes (b ∷ bytes) = refl

-- Bytes written in hexadecimal, with the prefix or without, are read back, whether errors throw or not.
pub from_hex-to_hex :
    (bytes : List ℕ) (prefix : HexPrefix) (when_error : WhenError)
    → All IsByte bytes
    → from_hex (to_hex bytes 2 prefix) when_error ≡ some bytes
unfolding to_hex skip_prefix
from_hex-to_hex bytes HexPrefix.dont_add when_error h = rw (to_hex-hex_bytes bytes) (
    from_even (hex_bytes bytes) (hex_bytes bytes) bytes when_error
      (omega (arith, length-hex_bytes bytes h)) (skip_prefix-hex_bytes bytes h)
      (from_pairs-hex_bytes bytes h))
from_hex-to_hex bytes HexPrefix.add when_error h =
    subst (λ t. from_hex (hex_prefix ++ t) when_error ≡ some bytes) (sym (to_hex-hex_bytes bytes))
      (from_even (hex_prefix ++ hex_bytes bytes) (hex_bytes bytes) bytes when_error
        (omega (arith, length-hex_bytes bytes h)) refl (from_pairs-hex_bytes bytes h))
