-- ===== src/Config/Values.antt =====
-- src/config.rs: the flags, the counts, the lists and the environment. A text is the numbers of its
-- characters. The parsers of a wallet, of an origin and of a header value are parameters.
pub mod Laws
use executor_node.Prelude.{
  ℕ, ◌+◌, Bool, true, false, not, ◌&&◌, ◌||◌, Option, none, some, List, [], ◌∷◌, ◌++◌, Bytes, bytes,
  Bytes_eq, ◌==◌, leb, nat_eq, if◌then◌else◌, Result, ok, err, is_some_and, and_then, unwrap_or,
}
use executor_node.Error.{Message, text, text_nat, text_bytes}
use executor_node.Text.{parse_u64, split}

abbrev pub default_challenge_ttl_secs : ℕ
default_challenge_ttl_secs = 180

abbrev pub max_challenge_ttl_secs : ℕ
max_challenge_ttl_secs = 300

abbrev pub default_paired_session_concurrency : ℕ
default_paired_session_concurrency = 16

abbrev pub max_paired_session_concurrency : ℕ
max_paired_session_concurrency = 128

-- `char::is_whitespace`
abbrev is_whitespace : ℕ → Bool
is_whitespace c =
    (leb 9 c && leb c 13)
    || (nat_eq c 32
        || (nat_eq c 133
            || (nat_eq c 160
                || (nat_eq c 5760
                    || ((leb 8192 c && leb c 8202)
                        || (nat_eq c 8232
                            || (nat_eq c 8233
                                || (nat_eq c 8239 || (nat_eq c 8287 || nat_eq c 12288)))))))))

unfoldable pub trim_start : Bytes → Bytes
trim_start [] = []
trim_start (c ∷ rest) =
    let trimmed = trim_start rest in if is_whitespace c then trimmed else c ∷ rest

-- What is left of a text without the space at its end.
unfoldable pub trim_end : Bytes → Bytes
trim_end [] = []
trim_end (c ∷ rest) = elim (trim_end rest) [
  | [] ↦ if is_whitespace c then [] else c ∷ []
  | d ∷ more ↦ c ∷ d ∷ more
]

-- `str::trim`
abbrev pub trim : Bytes → Bytes
trim t = trim_end (trim_start t)

unfoldable pub to_ascii_lowercase : Bytes → Bytes
to_ascii_lowercase [] = []
to_ascii_lowercase (c ∷ rest) =
    (if leb 65 c && leb c 90 then c + 32 else c) ∷ to_ascii_lowercase rest

abbrev is_one_of : Bytes → List Bytes → Bool
is_one_of t [] = false
is_one_of t (word ∷ words) = t == word || is_one_of t words

abbrev spells : Bool → Bytes → Bool
spells true t = is_one_of t (bytes "1" ∷ bytes "true" ∷ bytes "yes" ∷ bytes "on" ∷ [])
spells false t = is_one_of t (bytes "0" ∷ bytes "false" ∷ bytes "no" ∷ bytes "off" ∷ [])

unfoldable pub parse_bool : Option Bytes → Bool → Bool
unfolding trim_start trim_end to_ascii_lowercase
parse_bool none default = default
parse_bool (some s) default =
    let word = to_ascii_lowercase (trim s) in
    if spells true word then true else (if spells false word then false else default)

-- A count of the type's range, `usize` being 64 bits wide.
unfoldable pub parse_paired_session_concurrency : Option Bytes → Result Message ℕ
unfolding parse_u64 trim_start trim_end
parse_paired_session_concurrency none = ok default_paired_session_concurrency
parse_paired_session_concurrency (some value) = elim (parse_u64 (trim value)) [
  | none ↦ err (text "EXECUTOR_PAIRED_SESSION_CONCURRENCY must be 1-128")
  | some count ↦
      if leb 1 count && leb count max_paired_session_concurrency
      then ok count
      else err (text "EXECUTOR_PAIRED_SESSION_CONCURRENCY must be 1-128")
]

abbrev checked_ttl : ℕ → Result Message ℕ
checked_ttl ttl_secs =
    if not (leb 1 ttl_secs && leb ttl_secs max_challenge_ttl_secs)
    then err (text "CHALLENGE_TTL_SECS must be between 1 and 300")
    else ok ttl_secs

unfoldable pub parse_challenge_ttl_secs : Option Bytes → Result Message ℕ
unfolding parse_u64
parse_challenge_ttl_secs none = checked_ttl default_challenge_ttl_secs
parse_challenge_ttl_secs (some value) = elim (parse_u64 value) [
  | none ↦ err (text "CHALLENGE_TTL_SECS is not a valid u64")
  | some ttl_secs ↦ checked_ttl ttl_secs
]

pub data Environment : Type 0 where
  dev prod : Environment

unfoldable pub parse_environment : Option Bytes → Result Message Environment
parse_environment value =
    let name = unwrap_or value (bytes "dev") in
    if name == bytes "dev"
    then ok dev
    else (if name == bytes "prod"
        then ok prod
        else err (text_bytes "ENVIRONMENT must be either dev or prod, got {:?}" name))

abbrev pub is_prod : Environment → Bool
is_prod dev = false
is_prod prod = true

abbrev pub scoring_code : Environment → ℕ
scoring_code dev = 1
scoring_code prod = 2

-- The entries, trimmed and parsed from the first to the last. A set is the list of its members.
unfoldable pub parse_wallets : (Bytes → Option Bytes) → List Bytes → Result Message (List Bytes)
unfolding trim_start trim_end
parse_wallets from_str [] = ok []
parse_wallets from_str (entry ∷ entries) =
    let wallet = trim entry in
    let later = parse_wallets from_str entries in
    if wallet == [] then later else elim (from_str wallet) [
      | none ↦ err (text_bytes "EXECUTOR_PAIRED_WALLETS holds an invalid wallet: {}" wallet)
      | some key ↦ elim later [ err e ↦ err e | ok keys ↦ ok (key ∷ keys) ]
    ]

unfoldable pub parse_paired_wallets :
    (Bytes → Option Bytes) → Option Bytes → Result Message (Option (List Bytes))
unfolding trim_start trim_end split parse_wallets
parse_paired_wallets from_str none = ok none
parse_paired_wallets from_str (some value) =
    if trim value == [] then ok none else elim (parse_wallets from_str (split 44 (trim value))) [
      | err e ↦ err e
      | ok keys ↦ ok (some keys)
    ]

-- What the parser of the `http` crate says of an origin.
pub record Uri : Type 0 where
  pub scheme : Option Bytes
  pub has_authority : Bool
  pub path : Bytes
  pub has_query : Bool

module _ (parse_uri : Bytes → Option Uri) (header_value : Bytes → Option Bytes) where
  abbrev is_origin : Uri → Bool
  is_origin uri =
      is_some_and uri.scheme (λ s. s == bytes "http" || s == bytes "https")
      && (uri.has_authority && (uri.path == bytes "/" && not uri.has_query))

  unfoldable pub parse_origin : Bytes → Result Message Bytes
  parse_origin value = elim (parse_uri value) [
    | none ↦ err (text_bytes "CORS_ORIGINS contains an invalid origin: {:?}" value)
    | some uri ↦
        if not (is_origin uri)
        then err (text_bytes "CORS_ORIGINS entries must be HTTP origins without paths: {:?}" value)
        else elim (header_value value) [
          | none ↦ err (text_bytes "CORS_ORIGINS contains an invalid header value: {:?}" value)
          | some header ↦ ok header
        ]
  ]

  unfoldable pub parse_origins : List Bytes → Result Message (List Bytes)
  unfolding parse_origin
  parse_origins [] = ok []
  parse_origins (value ∷ values) =
      let later = parse_origins values in
      elim (parse_origin value) [
        | err e ↦ err e
        | ok header ↦ elim later [ err e ↦ err e | ok headers ↦ ok (header ∷ headers) ]
      ]

  unfoldable pub parse_cors_origins : List Bytes → Environment → Result Message (List Bytes)
  unfolding parse_origins
  parse_cors_origins [] prod =
      err (text "CORS_ORIGINS must contain at least one origin when ENVIRONMENT=prod")
  parse_cors_origins values environment = parse_origins values
