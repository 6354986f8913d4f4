-- ===== src/PoolUri/Laws.antt =====
-- The parts of an address that are written are the parts that are read.
use quai_gpu_miner_archive.PoolUri.Parsing.{
  finish, parse_userinfo, hide_blocks, show_blocks, unticked,
}
use quai_gpu_miner_archive.PoolUri.{decoded, Text, split_last, url_decode, read_byte}
use quai_gpu_miner_archive.PoolUri.Parts.{Address, PoolUri, parse_user, backtick_blocks}
use quai_gpu_miner_archive.CommonData.{hex_digit}
use quai_gpu_miner_archive.Stratum.Texts.{read_digits, read_hex}
use quai_gpu_miner_archive.Stratum.Reading.{read_digits-hex_digit, read_hex-digits}
use quai_gpu_miner_archive.Prelude.{
  ℕ, ◌+◌, ◌*◌, ◌/◌, ◌%◌, ◌<◌, ◌≡◌, refl, sym, ap, ◌∙◌, subst, ◌≢◌, ◌⊎◌, inl, inr, false, Option,
  none, some, List, [], ◌∷◌, ◌++◌, arith, ◌==◌, ==_iff, ne→==, All,
}

-- The character does not occur.
abbrev pub IsFree : ℕ → Text → Type 0
IsFree c s = All (λ d. d ≢ c) s

split_last-none : (c : ℕ) (s : Text) → IsFree c s → split_last c s ≡ none
unfolding split_last
split_last-none c [] h = refl
split_last-none c (d ∷ s) (ne, h) = rw (split_last, split_last-none c s h, ne→== d c ne) refl

split_last-append : (c : ℕ) (s t : Text) → IsFree c t → split_last c (s ++ c ∷ t) ≡ some (s, t)
unfolding split_last
split_last-append c [] t h = rw (split_last, split_last-none c t h, (==_iff c c).1 refl) refl
split_last-append c (d ∷ s) t h = rw (split_last, split_last-append c s t h) refl

-- The user, the worker and the password, before backticks and escapes are read.
parse_user-append :
    (user worker password : Text) (u : PoolUri)
    → IsFree 46 worker
    → IsFree 58 password
    → parse_user ((user ++ 46 ∷ worker) ++ 58 ∷ password) u
      ≡ record u { user = user; worker = worker; password = password }
unfolding parse_user
parse_user-append user worker password u no_dot no_colon =
    rw
      (
        parse_user,
        split_last-append 58 (user ++ 46 ∷ worker) password no_colon,
        split_last-append 46 user worker no_dot,
      )
      refl

-- Each byte as a percent sign and two digits.
abbrev pub percent_encode : List ℕ → Text
percent_encode [] = []
percent_encode (b ∷ bytes) = 37 ∷ hex_digit (b / 16) ∷ hex_digit (b % 16) ∷ percent_encode bytes

read_byte-hex_digit :
    (b : ℕ) → b < 256 → read_byte (hex_digit (b / 16)) (hex_digit (b % 16)) ≡ some b
unfolding read_digits
read_byte-hex_digit b small = ground (arith, no_x, no_upper_x, read)
  where
    no_x : (hex_digit (b % 16) == 120) ≡ false
    no_x = ground arith

    no_upper_x : (hex_digit (b % 16) == 88) ≡ false
    no_upper_x = ground arith

    whole : (0 * 16 + b / 16) * 16 + b % 16 ≡ b
    whole = omega arith

    at_end : read_digits 16 ((0 * 16 + b / 16) * 16 + b % 16) [] ≡ b
    at_end = whole

    value : read_digits 16 0 (hex_digit (b / 16) ∷ hex_digit (b % 16) ∷ []) ≡ b
    value =
        read_digits-hex_digit (b / 16) 0 (hex_digit (b % 16) ∷ []) (omega arith)
        ∙ read_digits-hex_digit (b % 16) (0 * 16 + b / 16) [] (omega arith)
        ∙ at_end

    read : read_hex (hex_digit (b / 16) ∷ hex_digit (b % 16) ∷ []) ≡ some (false, b)
    read =
        read_hex-digits (b / 16) (b % 16) [] (omega arith) (omega arith)
        ∙ ap (λ n. some (false, n)) value

-- Bytes that are written as a percent sign and two digits each are decoded to themselves.
pub url_decode-percent_encode :
    (bytes : List ℕ) → All (λ b. b < 256) bytes → url_decode (percent_encode bytes) ≡ some bytes
unfolding url_decode
url_decode-percent_encode [] h = refl
url_decode-percent_encode (b ∷ bytes) (small, h) =
    rw (url_decode, read_byte-hex_digit b small, url_decode-percent_encode bytes h) refl

hex_digit-ne : (n : ℕ) → n < 16 → (hex_digit n ≢ 46) × (hex_digit n ≢ 58) × (hex_digit n ≢ 96)
hex_digit-ne n small = (ground arith, ground arith, ground arith)

abbrev IsPlain : ℕ → Type 0
IsPlain c = (c ≡ 46) ⊎ (c ≡ 58) ⊎ (c ≡ 96)

percent_encode-IsFree :
    (c : ℕ) (bytes : List ℕ)
    → IsPlain c
    → All (λ b. b < 256) bytes
    → IsFree c (percent_encode bytes)
percent_encode-IsFree c [] plain h = tt
percent_encode-IsFree c (b ∷ bytes) plain (small, h) = (
  λ e. ground arith,
  (
    other (b / 16) (omega arith),
    (other (b % 16) (omega arith), percent_encode-IsFree c bytes plain h),
  ),
)
  where
    other : (n : ℕ) → n < 16 → hex_digit n ≢ c
    other n low = ground arith

backtick_blocks-IsFree : (s : Text) → IsFree 96 s → backtick_blocks none s ≡ []
unfolding backtick_blocks
backtick_blocks-IsFree [] h = refl
backtick_blocks-IsFree (c ∷ s) (other, h) = rw (ne→== c 96 other) (backtick_blocks-IsFree s h)

-- A user, a worker and a password, each written with escapes alone.
abbrev pub written : List ℕ → List ℕ → List ℕ → Text
written user worker password =
    (percent_encode user ++ 46 ∷ percent_encode worker) ++ 58 ∷ percent_encode password

abbrev IsBytes : List ℕ → Type 0
IsBytes = All (λ b. b < 256)

decoded-some : (s t : Text) → url_decode s ≡ some t → decoded s ≡ t
decoded-some s t e = rw (decoded, e) refl

module _ (to_lower : Text → Text) (replace_all : Text → Text → Text → Text)
    (lexical_cast : Text → Option ℕ) (address_of : Text → Option Address) where
  abbrev pub read : PoolUri → PoolUri
  read u =
      finish to_lower replace_all lexical_cast address_of
        (parse_userinfo to_lower replace_all lexical_cast address_of u)

  abbrev pub IsRead : List ℕ → List ℕ → List ℕ → PoolUri → Type 0
  IsRead user worker password u = (u.user ≡ user) × (u.worker ≡ worker) × (u.password ≡ password)

  abbrev KeepsUnticked : Type 0
  KeepsUnticked = (s : Text) → IsFree 96 s → replace_all s (96 ∷ []) [] ≡ s

  unticked-percent_encode :
      (bytes : List ℕ)
      → KeepsUnticked
      → IsBytes bytes
      → unticked to_lower replace_all lexical_cast address_of (percent_encode bytes)
        ≡ percent_encode bytes
  unticked-percent_encode [] keeps h = refl
  unticked-percent_encode (b ∷ bytes) keeps h =
      keeps (percent_encode (b ∷ bytes)) (percent_encode-IsFree 96 (b ∷ bytes) (inr (inr refl)) h)

  decoded-unticked :
      (bytes : List ℕ)
      → KeepsUnticked
      → IsBytes bytes
      → decoded (unticked to_lower replace_all lexical_cast address_of (percent_encode bytes))
        ≡ bytes
  decoded-unticked bytes keeps h =
      ap decoded (unticked-percent_encode bytes keeps h)
      ∙ decoded-some (percent_encode bytes) bytes (url_decode-percent_encode bytes h)

  -- Without backticks, the user information is split as it stands.
  parse_userinfo-IsFree :
      (u : PoolUri) (c : ℕ) (s : Text)
      → IsFree 96 u.authority
      → parse_userinfo to_lower replace_all lexical_cast address_of (record u { userinfo = c ∷ s })
        ≡ record (parse_user (c ∷ s) (record u { userinfo = c ∷ s })) { userinfo = c ∷ s }
  unfolding parse_userinfo hide_blocks show_blocks
  parse_userinfo-IsFree u c s free = rw (backtick_blocks-IsFree u.authority free) refl

  written-cases :
      (user worker password : List ℕ)
      → (c : ℕ) × (s : Text) × (written user worker password ≡ c ∷ s)
  written-cases [] worker password = (_, _, refl)
  written-cases (b ∷ user) worker password = (_, _, refl)

  parse_userinfo-written :
      (user worker password : List ℕ) (u : PoolUri)
      → IsBytes worker
      → IsBytes password
      → IsFree 96 u.authority
      → parse_userinfo to_lower replace_all lexical_cast address_of
          (record u { userinfo = written user worker password })
        ≡ record u {
          userinfo = written user worker password;
          user = percent_encode user;
          worker = percent_encode worker;
          password = percent_encode password;
        }
  parse_userinfo-written user worker password u ws ps free =
      let (c, s, same) = written-cases user worker password in
      ap
        (λ info.
          parse_userinfo to_lower replace_all lexical_cast address_of
            (record u { userinfo = info }))
        same
      ∙ parse_userinfo-IsFree u c s free
      ∙ ap {A = Text}
          (λ info. record (parse_user info (record u { userinfo = info })) { userinfo = info })
          (sym same)
      ∙ ap {A = PoolUri} (λ v. record v { userinfo = written user worker password })
          (parse_user-append (percent_encode user) (percent_encode worker) (percent_encode password)
            (record u { userinfo = written user worker password })
            (percent_encode-IsFree 46 worker (inl refl) ws)
            (percent_encode-IsFree 58 password (inr (inl refl)) ps))

  -- In an authority without backticks, let the user information be a user, a dot, a worker, a colon
  -- and a password, in each of which every byte is written as a percent sign and two digits. When the
  -- removal of backticks changes no text without them, the user, the worker and the password that are
  -- read are these bytes, also where they are dots, colons or backticks.
  pub finish-parse_userinfo :
      (user worker password : List ℕ) (u : PoolUri)
      → ((s : Text) → IsFree 96 s → replace_all s (96 ∷ []) [] ≡ s)
      → All (λ b. b < 256) user
      → All (λ b. b < 256) worker
      → All (λ b. b < 256) password
      → IsFree 96 u.authority
      → IsRead user worker password (read (record u { userinfo = written user worker password }))
  unfolding finish
  finish-parse_userinfo user worker password u keeps us ws ps free =
      subst
        (λ v. IsRead user worker password (finish to_lower replace_all lexical_cast address_of v))
        (sym (parse_userinfo-written user worker password u ws ps free))
        (
          decoded-unticked user keeps us,
          decoded-unticked worker keeps ws,
          decoded-unticked password keeps ps,
        )
