-- ===== src/CommonData/Tests.antt =====
-- Two bytes in hexadecimal, and the four bytes of a number.
use quai_gpu_miner_archive.CommonData.{
  dont_throw, throw, add, from_hex, to_hex, from_digits, hex_byte, from_pairs, hex_bytes,
  from_hex_digit, skip_prefix,
}
use quai_gpu_miner_archive.Prelude.{◌≡◌, refl, some, [], ◌∷◌}

-- "0x4169".
to_hex_two : to_hex (65 ∷ 105 ∷ []) 2 add ≡ 48 ∷ 120 ∷ 52 ∷ 49 ∷ 54 ∷ 57 ∷ []
unfolding to_hex hex_byte hex_bytes
to_hex_two = refl

-- "fg", and "A1b", whose first digit is a byte.
from_hex_bad : from_hex (102 ∷ 103 ∷ []) dont_throw ≡ some []
unfolding from_hex from_digits from_pairs from_hex_digit skip_prefix
from_hex_bad = refl

from_hex_odd : from_hex (65 ∷ 49 ∷ 98 ∷ []) throw ≡ some (10 ∷ 27 ∷ [])
unfolding from_hex from_digits from_pairs from_hex_digit skip_prefix
from_hex_odd = refl
