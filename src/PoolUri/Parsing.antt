-- ===== src/PoolUri/Parsing.antt =====
-- The constructor of `URI` of libpoolprotocols/PoolURI.cpp, and what it is asked.
use quai_gpu_miner_archive.PoolUri.{
  Text, SecureLevel, UriHostNameType, basic, dns, ipv4, ipv6, schemes, find_scheme, attributes_of,
  decoded, split_last, split_path,
}
use quai_gpu_miner_archive.PoolUri.Parts.{
  PoolUri, invalid_authority, invalid_scheme, missing_host, bad_lexical_cast, Parsed, failed,
  parsed, empty_uri, split_scheme, parse_user, parse_path, is_port, backtick_blocks, ticked, token,
  Address, v4_address, v6_address, label_start, is_host_name,
}
use quai_gpu_miner_archive.PoolManager.{ProtocolFamily}
use quai_gpu_miner_archive.Stratum.Texts.{codes, same_text}
use quai_gpu_miner_archive.Prelude.{
  ℕ, ◌+◌, Bool, false, not, ◌&&◌, Option, none, some, List, [], ◌∷◌, if◌then◌else◌,
}

module _ (to_lower : Text → Text) (replace_all : Text → Text → Text → Text)
    (lexical_cast : Text → Option ℕ) (address_of : Text → Option Address) where
  -- The first parameter counts the blocks.
  unfoldable pub hide_blocks : ℕ → List Text → Text → Text
  hide_blocks i [] s = s
  hide_blocks i (block ∷ blocks) s =
      hide_blocks (i + 1) blocks (replace_all s (ticked block) (ticked (token i)))

  unfoldable pub show_blocks : ℕ → List Text → Text → Text
  show_blocks i [] s = s
  show_blocks i (block ∷ blocks) s =
      show_blocks (i + 1) blocks (replace_all s (ticked (token i)) block)

  -- The user information, if there is any.
  unfoldable pub parse_userinfo : PoolUri → PoolUri
  unfolding parse_user backtick_blocks hide_blocks show_blocks
  parse_userinfo u =
      let blocks = backtick_blocks none u.authority in
      let told = parse_user (hide_blocks 0 blocks u.userinfo) u in
      elim u.userinfo [
        | [] ↦ u
        | c ∷ s ↦ record told {
          userinfo = show_blocks 0 blocks (hide_blocks 0 blocks u.userinfo);
          user = show_blocks 0 blocks told.user;
          worker = show_blocks 0 blocks told.worker;
          password = show_blocks 0 blocks told.password;
        }
      ]

  -- The host and its port. `none` is the exception of lexical_cast.
  unfoldable pub parse_host : PoolUri → Option PoolUri
  unfolding split_last is_port
  parse_host u = elim (split_last 58 u.hostinfo) [
    | none ↦ some (record u { host = u.hostinfo })
    | some parts ↦
        if is_port parts.1
        then elim (lexical_cast parts.1) [
          | none ↦ none
          | some port ↦ some (record u { host = parts.0; port = port })
        ]
        else some (record u { host = u.hostinfo })
  ]

  unfoldable pub host_type_of : Text → UriHostNameType
  unfolding is_host_name
  host_type_of host = elim (address_of host) [
    | some (v4_address loop_back) ↦ ipv4
    | some (v6_address loop_back) ↦ ipv6
    | none ↦ if is_host_name label_start host then dns else basic
  ]

  -- False where the source leaves the member unset.
  abbrev is_loop_back_of : Text → Bool
  is_loop_back_of host = elim (address_of host) [
    | some (v4_address loop_back) ↦ loop_back
    | some (v6_address loop_back) ↦ loop_back
    | none ↦ false
  ]

  abbrev pub unticked : Text → Text
  unticked [] = []
  unticked (c ∷ s) = replace_all (c ∷ s) (96 ∷ []) []

  -- The end of the constructor: the type of the host, and the decoding of each part.
  unfoldable pub finish : PoolUri → PoolUri
  unfolding host_type_of
  finish u = record u {
    host_type = host_type_of u.host;
    is_loop_back = is_loop_back_of u.host;
    userinfo = decoded u.userinfo;
    urlinfo = decoded u.urlinfo;
    hostinfo = decoded u.hostinfo;
    pathinfo = decoded u.pathinfo;
    path = decoded u.path;
    query = decoded u.query;
    fragment = decoded u.fragment;
    user = decoded (unticked u.user);
    password = decoded (unticked u.password);
    worker = decoded (unticked u.worker);
  }

  -- What follows the split of the authority.
  unfoldable pub parse_urlinfo : PoolUri → Parsed
  unfolding parse_host parse_path split_path finish
  parse_urlinfo u =
      let (hostinfo, pathinfo) = split_path u.urlinfo in
      elim (parse_host (record u { hostinfo = to_lower hostinfo; pathinfo = pathinfo })) [
        | none ↦ failed bad_lexical_cast
        | some h ↦ elim h.host [ [] ↦ failed missing_host | c ∷ s ↦ parsed (finish (parse_path h)) ]
      ]

  abbrev split_userinfo : PoolUri → PoolUri
  split_userinfo u = elim (split_last 64 u.authority) [
    | some parts ↦ record u { userinfo = parts.0; urlinfo = parts.1 }
    | none ↦ record u { urlinfo = u.authority }
  ]

  -- `URI(uri, _sim)`. A text that has no scheme is an empty address, and no error.
  unfoldable pub parse_uri : Text → Bool → Parsed
  unfolding split_scheme parse_userinfo parse_urlinfo schemes find_scheme
  parse_uri uri sim = elim (split_scheme [] uri) [
    | none ↦ parsed (empty_uri uri)
    | some parts ↦
        let scheme = to_lower parts.0 in
        let u = record (empty_uri uri) { scheme = scheme; authority = parts.1 } in
        let full = parse_urlinfo (parse_userinfo (split_userinfo u)) in
        elim parts.1 [
          | [] ↦ failed invalid_authority
          | c ∷ s ↦
              if not sim && same_text scheme (codes "simulation")
              then failed invalid_scheme
              else elim (find_scheme schemes scheme) [
                | none ↦ failed invalid_scheme
                | some found ↦ full
              ]
        ]
  ]

-- `Family`, `Version` and `SecLevel`.
abbrev pub family_of : PoolUri → ProtocolFamily
family_of u = (attributes_of u.scheme).family

abbrev pub version_of : PoolUri → ℕ
version_of u = (attributes_of u.scheme).version

abbrev pub sec_level_of : PoolUri → SecureLevel
sec_level_of u = (attributes_of u.scheme).secure
