-- ===== src/PoolUri/Parts.antt =====
-- The members of `URI` of libpoolprotocols/PoolURI.h, and how its constructor splits the parts.
use quai_gpu_miner_archive.PoolUri.{Text, UriHostNameType, unknown, split_last}
use quai_gpu_miner_archive.Stratum.Texts.{same_text}
use quai_gpu_miner_archive.Prelude.{
  ℕ, ◌+◌, Bool, true, false, ◌&&◌, ◌||◌, Option, none, some, List, [], ◌∷◌, ◌++◌, leb, ◌==◌,
  if◌then◌else◌, length, take, drop,
}

-- The members of `URI` that the text decides.
pub record PoolUri : Type 0 where
  pub uri : Text
  pub scheme : Text
  pub authority : Text
  pub userinfo : Text
  pub urlinfo : Text
  pub hostinfo : Text
  pub pathinfo : Text
  pub host : Text
  pub path : Text
  pub query : Text
  pub fragment : Text
  pub user : Text
  pub password : Text
  pub worker : Text
  pub port : ℕ
  pub host_type : UriHostNameType
  pub is_loop_back : Bool

pub data UriError : Type 0 where
  invalid_authority : UriError
  invalid_scheme : UriError
  missing_host : UriError
  bad_lexical_cast : UriError

pub data Parsed : Type 0 where
  failed : UriError → Parsed
  parsed : PoolUri → Parsed

abbrev pub empty_uri : Text → PoolUri
empty_uri uri = record {
  uri = uri;
  scheme = [];
  authority = [];
  userinfo = [];
  urlinfo = [];
  hostinfo = [];
  pathinfo = [];
  host = [];
  path = [];
  query = [];
  fragment = [];
  user = [];
  password = 88 ∷ [];
  worker = [];
  port = 0;
  host_type = unknown;
  is_loop_back = false;
}

abbrev between : ℕ → ℕ → ℕ → Bool
between low high c = leb low c && leb c high

abbrev pub is_digit : ℕ → Bool
is_digit c = between 48 57 c

abbrev pub is_alnum : ℕ → Bool
is_alnum c = is_digit c || between 97 122 c || between 65 90 c

-- The scheme and the authority: `^([a-zA-Z0-9\+]{1,})\:\/\/(.*)$`, behind characters of a scheme.
unfoldable pub split_scheme : Text → Text → Option (Text × Text)
split_scheme before [] = none
split_scheme before (c ∷ s) = elim (is_alnum c || (c == 43)) [
  | true ↦ split_scheme (before ++ c ∷ []) s
  | false ↦ elim before [
    | [] ↦ none
    | b ∷ more ↦
        if same_text (take 3 (c ∷ s)) (58 ∷ 47 ∷ 47 ∷ [])
        then some (b ∷ more, drop 3 (c ∷ s))
        else none
  ]
]

-- `user`, `user.worker`, `user.worker:password` or `user:password`, in the order of the patterns.
unfoldable pub parse_user : Text → PoolUri → PoolUri
unfolding split_last
parse_user info u = elim (split_last 58 info) [
  | some parts ↦ elim (split_last 46 parts.0) [
    | some names ↦ record u { user = names.0; worker = names.1; password = parts.1 }
    | none ↦ record u { user = parts.0; password = parts.1 }
  ]
  | none ↦ elim (split_last 46 info) [
    | some names ↦ record u { user = names.0; worker = names.1 }
    | none ↦ record u { user = info }
  ]
]

-- The path, the query and the fragment, in the order of the patterns.
unfoldable pub parse_path : PoolUri → PoolUri
unfolding split_last
parse_path u = elim u.pathinfo [
  | [] ↦ u
  | c ∷ s ↦ elim (split_last 35 (c ∷ s)) [
    | some parts ↦ elim (split_last 63 parts.0) [
      | some more ↦ record u { path = more.0; query = more.1; fragment = parts.1 }
      | none ↦ record u { path = parts.0; fragment = parts.1 }
    ]
    | none ↦ elim (split_last 63 (c ∷ s)) [
      | some more ↦ record u { path = more.0; query = more.1 }
      | none ↦ record u { path = c ∷ s }
    ]
  ]
]

-- `[0-9]{1,5}`.
unfoldable pub is_port : Text → Bool
is_port s = leb 1 (length s) && leb (length s) 5 && all s
  where
    all : Text → Bool
    all [] = true
    all (c ∷ rest) = is_digit c && all rest

-- The texts between pairs of backticks, with whether the text so far is within one.
unfoldable pub backtick_blocks : Option Text → Text → List Text
backtick_blocks within [] = []
backtick_blocks none (c ∷ s) = backtick_blocks (if c == 96 then some [] else none) s
backtick_blocks (some block) (c ∷ s) =
    let closed = backtick_blocks none s in
    let longer = backtick_blocks (some (block ++ c ∷ [])) s in
    if c == 96 then block ∷ closed else longer

abbrev pub ticked : Text → Text
ticked s = 96 ∷ s ++ 96 ∷ []

-- "_" and the number of a block.
abbrev pub token : ℕ → Text
token i = 95 ∷ (48 + i) ∷ []

-- What a parsed address says: its version, and whether it is a loopback address.
pub data Address : Type 0 where
  v4_address : Bool → Address
  v6_address : Bool → Address

-- Where a name stands: before the first character of a label, behind a letter or digit, or behind a
-- dash.
pub data LabelState : Type 0 where
  label_start : LabelState
  behind_alnum : LabelState
  behind_dash : LabelState

abbrev next_label_state : LabelState → ℕ → Option LabelState
next_label_state label_start c = if is_alnum c then some behind_alnum else none
next_label_state behind_alnum c =
    if c == 46
    then some label_start
    else (if c == 45 then some behind_dash else if is_alnum c then some behind_alnum else none)
next_label_state behind_dash c =
    if c == 45 then some behind_dash else if is_alnum c then some behind_alnum else none

-- `hostNamePattern`, behind the characters of a state: labels of letters, digits and dashes that begin
-- and end with no dash, with dots between them.
unfoldable pub is_host_name : LabelState → Text → Bool
is_host_name behind_alnum [] = true
is_host_name label_start [] = false
is_host_name behind_dash [] = false
is_host_name state (c ∷ s) = elim (next_label_state state c) [
  | some next ↦ is_host_name next s
  | none ↦ false
]
