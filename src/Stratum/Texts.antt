-- ===== src/Stratum/Texts.antt =====
-- The texts that libpoolprotocols/stratum/EthStratumClient.cpp reads and writes: the numbers it reads
-- with the standard library's functions, and hashes and nonces in hexadecimal.
use Prim.Native.Char.{code}
use Prim.Native.String.{String}
use quai_gpu_miner_archive.CommonData.{
  from_hex, from_hex_digit, HexPrefix, dont_add, add, throw, hex_digit, hex_prefix,
}
use quai_gpu_miner_archive.EthashAux.{Text}
use quai_gpu_miner_archive.Ethash.Hash.{Hash}
use quai_gpu_miner_archive.Ethash.Epoch.{zero_hash}
use quai_gpu_miner_archive.Prelude.{
  ℕ, zero, suc, ◌+◌, ◌-◌, ◌*◌, ◌/◌, ◌%◌, ◌^◌, Bool, true, false, ◌&&◌, ◌||◌, Option, none, some,
  List, [], ◌∷◌, ◌++◌, ltb, leb, ◌==◌, if◌then◌else◌, ◌>>=◌, length, replicate,
}

-- The codes of a string's characters.
unfoldable pub codes : String → Text
codes String.[] = []
codes (String.◌∷◌ c s) = code c ∷ codes s

unfoldable pub same_text : Text → Text → Bool
same_text [] [] = true
same_text (a ∷ xs) (b ∷ ys) = (a == b) && same_text xs ys
same_text _ _ = false

abbrev pub is_space : ℕ → Bool
is_space c = (c == 32) || (leb 9 c && leb c 13)

unfoldable pub skip_spaces : Text → Text
skip_spaces [] = []
skip_spaces (c ∷ s) = let rest = skip_spaces s in if is_space c then rest else c ∷ s

-- The value of a digit in a base up to 16.
abbrev pub digit_in : ℕ → ℕ → Option ℕ
digit_in base c = elim (from_hex_digit c) [
  | none ↦ none
  | some d ↦ if ltb d base then some d else none
]

-- The digits at the start of a text, as a number behind those read so far.
unfoldable pub read_digits : ℕ → ℕ → Text → ℕ
read_digits base n [] = n
read_digits base n (c ∷ s) = elim (digit_in base c) [
  | none ↦ n
  | some d ↦ read_digits base (n * base + d) s
]

-- Whether a text starts with a digit.
abbrev pub has_digit : ℕ → Text → Bool
has_digit base [] = false
has_digit base (c ∷ s) = elim (digit_in base c) [ none ↦ false | some d ↦ true ]

-- Behind a prefix 0x that a hexadecimal digit follows.
unfoldable pub skip_0x : Text → Text
skip_0x (z ∷ x ∷ s) =
    if (z == 48) && ((x == 120) || (x == 88)) && has_digit 16 s then s else z ∷ x ∷ s
skip_0x s = s

-- The conversion that std::stoul and std::stoi make in base 16: whether there is a minus sign, and the
-- value of the digits, where `none` is the exception for a text without digits.
unfoldable pub read_hex : Text → Option (Bool × ℕ)
unfolding skip_spaces skip_0x read_digits
read_hex s = elim (skip_spaces s) [
  | [] ↦ none
  | c ∷ rest ↦
      let signed = (c == 45) || (c == 43) in
      let digits = skip_0x (if signed then rest else c ∷ rest) in
      if has_digit 16 digits then some (c == 45, read_digits 16 0 digits) else none
]

-- `std::stoul(s, nullptr, 16)`: a minus sign negates in 64 bits, and a value out of range throws.
unfoldable pub stoul : Text → Option ℕ
unfolding read_hex
stoul s = do
  (negative, n) ← read_hex s
  if leb (2 ^ 64) n then none else some (if negative then (2 ^ 64 - n) % 2 ^ 64 else n)

-- `std::stoi(s, nullptr, 16)`, stored to an `unsigned`.
unfoldable pub stoi : Text → Option ℕ
unfolding read_hex
stoi s = do
  (negative, n) ← read_hex s
  if negative
      then (if ltb (2 ^ 31) n then none else some ((2 ^ 32 - n) % 2 ^ 32))
      else (if leb (2 ^ 31) n then none else some n)

-- `strtoul(s, nullptr, 0)`, whose base is told by a prefix 0x or 0, and which ends at the greatest
-- value when it is out of range.
unfoldable pub strtoul : Text → ℕ
unfolding skip_spaces skip_0x read_digits
strtoul s = elim (skip_spaces s) [
  | [] ↦ 0
  | c ∷ rest ↦
      let signed = (c == 45) || (c == 43) in
      let digits : Text = if signed then rest else c ∷ rest in
      let hex : Text = skip_0x digits in
      let n : ℕ = if ltb (length hex) (length digits) then read_digits 16 0 hex else elim digits [
        | [] ↦ 0
        | d ∷ more ↦ read_digits (if d == 48 then 8 else 10) 0 (d ∷ more)
      ] in
      if leb (2 ^ 64) n then 2 ^ 64 - 1 else if c == 45 then (2 ^ 64 - n) % 2 ^ 64 else n
]

-- `padLeft` of libdevcore/CommonData.cpp.
abbrev pub pad_left : Text → ℕ → ℕ → Text
pad_left value len fill = replicate (len - length value) fill ++ value

-- The hash of 32 bytes, as its 32-bit words.
unfoldable pub from_bytes : List ℕ → Hash
from_bytes (a ∷ b ∷ c ∷ d ∷ rest) = (a + 2 ^ 8 * b + 2 ^ 16 * c + 2 ^ 24 * d) ∷ from_bytes rest
from_bytes _ = []

-- `h256(s)`: `none` is the exception of a character that is no digit, and another size than 32 bytes
-- gives the zero hash.
unfoldable pub h256 : Text → Option Hash
unfolding from_bytes
h256 s = do bs ← from_hex s throw; some (if length bs == 32 then from_bytes bs else zero_hash)

-- The digits of a 64-bit number: `n` of them, the least significant last.
unfoldable pub hex_digits : ℕ → ℕ → Text
hex_digits zero v = []
hex_digits (suc n) v = hex_digits n (v / 16) ++ hex_digit (v % 16) ∷ []

-- The number of digits that std::hex writes, with fuel for 16 of them.
unfoldable pub digit_count : ℕ → ℕ → ℕ
digit_count zero v = 1
digit_count (suc fuel) v = let rest = digit_count fuel (v / 16) in if ltb v 16 then 1 else suc rest

-- `toHex` of a `uint64_t`, filled with `0` up to the width.
unfoldable pub to_hex_number : ℕ → HexPrefix → ℕ → Text
unfolding hex_digits digit_count
to_hex_number v prefix width =
    let count : ℕ = digit_count 15 v in
    let digits : Text = replicate (width - count) 48 ++ hex_digits count v in
    elim prefix [ add ↦ hex_prefix ++ digits | dont_add ↦ digits ]

-- `toCompactHex` of a `uint64_t`.
abbrev pub to_compact_hex : ℕ → Text
to_compact_hex v = hex_digits (digit_count 15 v) v
