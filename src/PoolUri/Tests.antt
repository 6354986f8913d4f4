-- ===== src/PoolUri/Tests.antt =====
-- An address, and the theorems on parts of it.
use quai_gpu_miner_archive.PoolUri.{Text, url_decode, dns}
use quai_gpu_miner_archive.PoolUri.Parsing.{parse_uri}
use quai_gpu_miner_archive.PoolUri.Parts.{
  PoolUri, Address, parsed, failed, empty_uri, invalid_scheme, invalid_authority, Parsed,
}
use quai_gpu_miner_archive.PoolUri.Laws.{
  finish-parse_userinfo, IsRead, read, written, percent_encode, url_decode-percent_encode,
}
use quai_gpu_miner_archive.CommonData.{from_hex_digit}
use quai_gpu_miner_archive.Stratum.Texts.{codes, same_text, read_hex}
use quai_gpu_miner_archive.Prelude.{ℕ, ◌≡◌, refl, false, Option, none, some, [], ◌∷◌, arith}

-- Boost's functions on texts that they do not change, and for a name that is no address.
abbrev same : Text → Text
same s = s

abbrev replace_none : Text → Text → Text → Text
replace_none s a b = s

abbrev cast_3333 : Text → Option ℕ
cast_3333 s = some 3333

abbrev no_address : Text → Option Address
no_address s = none

abbrev parse_test : Text → Parsed
parse_test uri = parse_uri same replace_none cast_3333 no_address uri false

abbrev expected : PoolUri
expected = record (empty_uri (codes "stratum1+tcp://u.w:p@pool:3333/x%20y?q")) {
  scheme = codes "stratum1+tcp";
  authority = codes "u.w:p@pool:3333/x%20y?q";
  userinfo = codes "u.w:p";
  urlinfo = codes "pool:3333/x y?q";
  hostinfo = codes "pool:3333";
  pathinfo = codes "/x y?q";
  host = codes "pool";
  path = codes "/x y";
  query = codes "q";
  user = codes "u";
  password = codes "p";
  worker = codes "w";
  port = 3333;
  host_type = dns;
}

parse_uri-whole : parse_test (codes "stratum1+tcp://u.w:p@pool:3333/x%20y?q") ≡ parsed expected
unfolding parse_uri url_decode read_hex from_hex_digit codes same_text
parse_uri-whole = refl

parse_uri-unknown_scheme : parse_test (codes "ftp://pool") ≡ failed invalid_scheme
unfolding parse_uri codes same_text
parse_uri-unknown_scheme = refl

parse_uri-no_authority : parse_test (codes "stratum://") ≡ failed invalid_authority
unfolding parse_uri codes same_text
parse_uri-no_authority = refl

finish-parse_userinfo_example :
    IsRead same replace_none cast_3333 no_address (codes "a.b") (codes "w") (codes "p:q") (
      read same replace_none cast_3333 no_address
        (record (empty_uri []) { userinfo = written (codes "a.b") (codes "w") (codes "p:q") }))
unfolding codes
finish-parse_userinfo_example =
    finish-parse_userinfo same replace_none cast_3333 no_address (codes "a.b") (codes "w")
      (codes "p:q") (empty_uri []) (λ s free. refl) (omega arith, (omega arith, (omega arith, tt)))
      (omega arith, tt) (omega arith, (omega arith, (omega arith, tt))) tt

url_decode-percent_encode_example :
    url_decode (percent_encode (64 ∷ 255 ∷ [])) ≡ some (64 ∷ 255 ∷ [])
url_decode-percent_encode_example =
    url_decode-percent_encode (64 ∷ 255 ∷ []) (omega arith, (omega arith, tt))
