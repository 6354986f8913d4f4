-- ===== src/CommonData.antt =====
-- Hexadecimal and big-endian conversion of libdevcore/CommonData.h and libdevcore/CommonData.cpp. A
-- text is the list of the codes of its characters.
pub mod Laws
pub mod BigEndian
mod Tests
use quai_gpu_miner_archive.Prelude.{
  ℕ, zero, suc, ◌+◌, ◌-◌, ◌*◌, ◌/◌, ◌%◌, ◌^◌, bit_or, Bool, true, false, ◌&&◌, Option, none, some,
  List, [], ◌∷◌, ◌++◌, ltb, leb, ◌==◌, if◌then◌else◌, ◌>>=◌, length, replicate,
}

pub data WhenError : Type 0 where
  dont_throw : WhenError
  throw : WhenError

pub data HexPrefix : Type 0 where
  dont_add : HexPrefix
  add : HexPrefix

-- `"0x"`.
abbrev pub hex_prefix : List ℕ
hex_prefix = 48 ∷ 120 ∷ []

-- `fromHex` of a character that is not to throw; `none` is its −1.
unfoldable pub from_hex_digit : ℕ → Option ℕ
from_hex_digit c =
    if leb 48 c && leb c 57
    then some (c - 48)
    else if leb 97 c && leb c 102
    then some (c - 97 + 10)
    else if leb 65 c && leb c 70
    then some (c - 65 + 10)
    else none

-- The loop of `fromHex` over the pairs that are left; `none` is a character that is no digit. A last
-- character alone is read with the 0 behind the text.
unfoldable pub from_pairs : List ℕ → Option (List ℕ)
unfolding from_hex_digit
from_pairs [] = some []
from_pairs (c ∷ []) = none
from_pairs (c ∷ d ∷ s) = do
  h ← from_hex_digit c
  l ← from_hex_digit d
  bytes ← from_pairs s
  some ((h * 16 + l) ∷ bytes)

-- `s`, where the digits start.
unfoldable pub skip_prefix : List ℕ → List ℕ
skip_prefix (a ∷ b ∷ s) = if (a == 48) && (b == 120) then s else a ∷ b ∷ s
skip_prefix s = s

-- An odd first digit is a byte of its own.
unfoldable pub from_digits : Bool → List ℕ → Option (List ℕ)
unfolding from_pairs
from_digits false s = from_pairs s
from_digits true [] = none
from_digits true (c ∷ s) = do h ← from_hex_digit c; bytes ← from_pairs s; some (h ∷ bytes)

-- `fromHex` of a text. `none` is the exception BadHexCharacter.
unfoldable pub from_hex : List ℕ → WhenError → Option (List ℕ)
unfolding from_digits skip_prefix
from_hex s when_error = elim (from_digits (length s % 2 == 1) (skip_prefix s)) [
  | some bytes ↦ some bytes
  | none ↦ elim when_error [ throw ↦ none | dont_throw ↦ some [] ]
]

-- The character of a digit, as std::hex writes it.
abbrev pub hex_digit : ℕ → ℕ
hex_digit n = if ltb n 10 then 48 + n else 97 + (n - 10)

-- A byte in hexadecimal, filled with `0` on the left to the width `w`.
unfoldable pub hex_byte : ℕ → ℕ → List ℕ
hex_byte w b =
    let digits =
      if ltb b 16 then hex_digit b ∷ [] else hex_digit (b / 16) ∷ hex_digit (b % 16) ∷ [] in
    replicate (w - length digits) 48 ++ digits

-- The elements behind the first.
unfoldable pub hex_bytes : List ℕ → List ℕ
unfolding hex_byte
hex_bytes [] = []
hex_bytes (b ∷ bytes) = hex_byte 2 b ++ hex_bytes bytes

-- `toHex` of bytes, with the width of the first.
unfoldable pub to_hex : List ℕ → ℕ → HexPrefix → List ℕ
unfolding hex_bytes
to_hex bytes w prefix =
    let digits : List ℕ = elim bytes [ [] ↦ [] | b ∷ rest ↦ hex_byte w b ++ hex_bytes rest ] in
    elim prefix [ add ↦ hex_prefix ++ digits | dont_add ↦ digits ]

-- `toBigEndian` into a collection of `n` bytes.
unfoldable pub to_big_endian : ℕ → ℕ → List ℕ
to_big_endian val zero = []
to_big_endian val (suc n) = to_big_endian (val / 256) n ++ val % 256 ∷ []

-- The loop of `fromBigEndian` into a type of `w` bits.
unfoldable pub from_big_endian : ℕ → ℕ → List ℕ → ℕ
from_big_endian w ret [] = ret
from_big_endian w ret (i ∷ bytes) = from_big_endian w (bit_or (ret * 2 ^ 8 % 2 ^ w) i) bytes
