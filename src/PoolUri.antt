-- ===== src/PoolUri.antt =====
-- The connection that a pool's address describes: `URI` of libpoolprotocols/PoolURI.cpp, for a text
-- without line breaks. Each regular expression is written out as the split that its greedy groups make:
-- at the last occurrence of a character. boost's to_lower, replace_all and lexical_cast, and its
-- parsing of an address, are arguments. At most ten texts stand in backticks, so that their numbers
-- are one digit each.
mod Tests
pub mod Parts
pub mod Parsing
pub mod Laws
pub use quai_gpu_miner_archive.EthashAux.{Text}
pub use quai_gpu_miner_archive.PoolManager.{ProtocolFamily, getwork, stratum, simulation}
use quai_gpu_miner_archive.Stratum.Texts.{codes, same_text, read_hex}
use quai_gpu_miner_archive.Prelude.{
  ℕ, ◌-◌, ◌%◌, ◌&&◌, ◌||◌, Option, none, some, List, [], ◌∷◌, ◌==◌, if◌then◌else◌, ◌>>=◌,
}

pub data SecureLevel : Type 0 where
  no_security : SecureLevel
  tls12 : SecureLevel
  tls : SecureLevel

pub data UriHostNameType : Type 0 where
  unknown : UriHostNameType
  basic : UriHostNameType
  dns : UriHostNameType
  ipv4 : UriHostNameType
  ipv6 : UriHostNameType

pub record SchemeAttributes : Type 0 where
  pub family : ProtocolFamily
  pub secure : SecureLevel
  pub version : ℕ

abbrev attributes : ProtocolFamily → SecureLevel → ℕ → SchemeAttributes
attributes family secure version = record { family = family; secure = secure; version = version }

-- `s_schemes`, in the order of the source.
unfoldable pub schemes : List (Text × SchemeAttributes)
unfolding codes
schemes =
    (codes "stratum+tcp", attributes stratum no_security 0)
    ∷ (codes "stratum1+tcp", attributes stratum no_security 1)
    ∷ (codes "stratum2+tcp", attributes stratum no_security 2)
    ∷ (codes "stratum3+tcp", attributes stratum no_security 3)
    ∷ (codes "stratum+tls", attributes stratum tls 0)
    ∷ (codes "stratum1+tls", attributes stratum tls 1)
    ∷ (codes "stratum2+tls", attributes stratum tls 2)
    ∷ (codes "stratum3+tls", attributes stratum tls 3)
    ∷ (codes "stratum+tls12", attributes stratum tls12 0)
    ∷ (codes "stratum1+tls12", attributes stratum tls12 1)
    ∷ (codes "stratum2+tls12", attributes stratum tls12 2)
    ∷ (codes "stratum3+tls12", attributes stratum tls12 3)
    ∷ (codes "stratum+ssl", attributes stratum tls12 0)
    ∷ (codes "stratum1+ssl", attributes stratum tls12 1)
    ∷ (codes "stratum2+ssl", attributes stratum tls12 2)
    ∷ (codes "stratum3+ssl", attributes stratum tls12 3)
    ∷ (codes "http", attributes getwork no_security 0)
    ∷ (codes "getwork", attributes getwork no_security 0)
    ∷ (codes "stratum", attributes stratum no_security 999)
    ∷ (codes "stratums", attributes stratum tls 999)
    ∷ (codes "stratumss", attributes stratum tls12 999)
    ∷ (codes "simulation", attributes simulation no_security 999)
    ∷ []

unfoldable pub find_scheme : List (Text × SchemeAttributes) → Text → Option SchemeAttributes
unfolding same_text
find_scheme [] scheme = none
find_scheme ((name, found) ∷ rest) scheme =
    let more = find_scheme rest scheme in if same_text name scheme then some found else more

-- `s_schemes[m_scheme]`: a scheme that is missing is put into the map with zeros.
unfoldable pub attributes_of : Text → SchemeAttributes
unfolding schemes find_scheme
attributes_of scheme = elim (find_scheme schemes scheme) [
  | some found ↦ found
  | none ↦ attributes getwork no_security 0
]

-- `is >> std::hex >> value` of two characters, stored to a `char`.
abbrev pub read_byte : ℕ → ℕ → Option ℕ
read_byte a b =
    if (a == 48) && ((b == 120) || (b == 88)) then none else elim (read_hex (a ∷ b ∷ [])) [
      | none ↦ none
      | some r ↦ some (if r.0 then (256 - r.1) % 256 else r.1)
    ]

-- What `url_decode` makes of what is left of a text: `none` is its false.
unfoldable pub url_decode : Text → Option Text
url_decode [] = some []
url_decode (c ∷ []) = if c == 37 then none else some ((if c == 43 then 32 else c) ∷ [])
url_decode (c ∷ d ∷ []) = do
  rest ← url_decode (d ∷ [])
  if c == 37 then none else some ((if c == 43 then 32 else c) ∷ rest)
url_decode (c ∷ d ∷ e ∷ s) =
    let plain = url_decode (d ∷ e ∷ s) in
    let coded = url_decode s in
    if c == 37
    then (do value ← read_byte d e; rest ← coded; some (value ∷ rest))
    else (do rest ← plain; some ((if c == 43 then 32 else c) ∷ rest))

-- The decoded text, or the text itself.
abbrev pub decoded : Text → Text
decoded s = elim (url_decode s) [ none ↦ s | some t ↦ t ]

-- The parts before and behind the last occurrence of a character: `^(.*)c(.*)$`.
unfoldable pub split_last : ℕ → Text → Option (Text × Text)
split_last c [] = none
split_last c (d ∷ s) = elim (split_last c s) [
  | some parts ↦ some (d ∷ parts.0, parts.1)
  | none ↦ if d == c then some ([], s) else none
]

-- The parts before and from the first slash.
unfoldable pub split_path : Text → Text × Text
split_path [] = ([], [])
split_path (c ∷ s) =
    let rest = split_path s in if c == 47 then ([], c ∷ s) else (c ∷ rest.0, rest.1)
