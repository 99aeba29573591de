-- ===== src/Config/Defs.antt =====
-- Load (internal/config/config.go). The environment is a function, empty where a variable is not set;
-- the parsing of floats and durations is a parameter.
use fusey.Base.{
  ℕ, ◌*◌, ◌-◌, ◌^◌, ◌%◌, Bytes, Bool, true, false, Option, none, some, [], ◌∷◌, ◌&&◌, ◌||◌, ◌==◌,
  nat_key, bytes_key, if◌then◌else◌, ltb, leb,
}
use fusey.Base.Word.{le64}
use fusey.Chunks.Ids.{scan_digits, is_digit, starts_with_digit}

abbrev pub all_digits : Bytes → Bool
all_digits [] = true
all_digits (c ∷ s) = is_digit c && all_digits s

-- strconv.ParseInt(s, 10, bits), as a pattern of 64 bits.
abbrev signed : ℕ → Bool → Bytes → Option ℕ
signed bits negative s =
    if starts_with_digit s && all_digits s
    then if negative
      then if leb (scan_digits s 0) (2 ^ (bits - 1))
        then some ((2 ^ 64 - scan_digits s 0) % 2 ^ 64)
        else none
      else if ltb (scan_digits s 0) (2 ^ (bits - 1))
      then some (scan_digits s 0)
      else none
    else none

unfoldable pub parse_int : ℕ → Bytes → Option ℕ
parse_int bits [] = none
parse_int bits (c ∷ s) =
    if c == b'-'
    then signed bits true s
    else if c == b'+'
    then signed bits false s
    else signed bits false (c ∷ s)

-- strconv.ParseBool
unfoldable pub parse_bool : Bytes → Option Bool
parse_bool s =
    if s == (b'1' ∷ [])
      || s == (b't' ∷ [])
      || s == (b'T' ∷ [])
      || s == (b'T' ∷ b'R' ∷ b'U' ∷ b'E' ∷ [])
      || s == (b't' ∷ b'r' ∷ b'u' ∷ b'e' ∷ [])
      || s == (b'T' ∷ b'r' ∷ b'u' ∷ b'e' ∷ [])
    then some true
    else if s == (b'0' ∷ [])
        || s == (b'f' ∷ [])
        || s == (b'F' ∷ [])
        || s == (b'F' ∷ b'A' ∷ b'L' ∷ b'S' ∷ b'E' ∷ [])
        || s == (b'f' ∷ b'a' ∷ b'l' ∷ b's' ∷ b'e' ∷ [])
        || s == (b'F' ∷ b'a' ∷ b'l' ∷ b's' ∷ b'e' ∷ [])
    then some false
    else none

-- The variables that Load reads, by the rest of their names behind FUSEY_.
pub data Variable : Type 0 where
  bucket endpoint region access_key secret_key prefix broker_url broker_auth_header
        broker_auth_value :
      Variable
  chunk_size block_size max_size cache_dir force_path_style : Variable
  compaction_threshold persist_interval allow_other : Variable

abbrev pub Environment : Type 0
Environment = Variable → Bytes

-- strconv.ParseFloat and time.ParseDuration, and the default threshold 0.3.
pub record Parsers : Type 1 where
  pub Float : Type 0
  pub default_threshold : Float
  pub parse_float : Bytes → Option Float
  pub parse_duration : Bytes → Option ℕ

pub data ConfigError : Type 0 where
  malformed : Variable → ConfigError
  max_size_not_positive : ConfigError

pub data Loaded {ℓ} (A : Type ℓ) : Type ℓ where
  loaded : A → Loaded A
  failed : ConfigError → Loaded A

infixl 5 ◌>>=◌
abbrev ◌>>=◌ {ℓ κ} : {A : Type ℓ} {B : Type κ} → Loaded A → (A → Loaded B) → Loaded B
loaded a >>= f = f a
failed e >>= f = failed e

-- "us-east-1", "/var/cache/fusey" and "X-SESSION-API-KEY"
abbrev default_region : Bytes
default_region = b'u' ∷ b's' ∷ b'-' ∷ b'e' ∷ b'a' ∷ b's' ∷ b't' ∷ b'-' ∷ b'1' ∷ []

abbrev default_cache_dir : Bytes
default_cache_dir =
    b'/' ∷ b'v' ∷ b'a' ∷ b'r' ∷ b'/' ∷ b'c' ∷ b'a' ∷ b'c' ∷ b'h' ∷ b'e' ∷ b'/' ∷ b'f' ∷ b'u' ∷ b's'
    ∷ b'e' ∷ b'y' ∷ []

abbrev default_broker_auth_header : Bytes
default_broker_auth_header =
    b'X' ∷ b'-' ∷ b'S' ∷ b'E' ∷ b'S' ∷ b'S' ∷ b'I' ∷ b'O' ∷ b'N' ∷ b'-' ∷ b'A' ∷ b'P' ∷ b'I' ∷ b'-'
    ∷ b'K' ∷ b'E' ∷ b'Y' ∷ []

module _ (P : Parsers) where
  pub record Config : Type 0 where
    pub chunk_size : ℕ
    pub block_size : ℕ
    pub max_fs_size : ℕ
    pub cache_dir : Bytes
    pub bucket : Bytes
    pub endpoint : Bytes
    pub region : Bytes
    pub access_key : Bytes
    pub secret_key : Bytes
    pub force_path_style : Bool
    pub prefix : Bytes
    pub broker_url : Bytes
    pub broker_auth_header : Bytes
    pub broker_auth_value : Bytes
    pub compaction_threshold : P.Float
    pub persist_interval : ℕ
    pub allow_other : Bool

  abbrev or_default : Bytes → Bytes → Bytes
  or_default [] d = d
  or_default (c ∷ s) d = c ∷ s

  -- parseInt64Env, parseFloat64Env, parseBoolEnv and parseDurationEnv: an empty variable leaves the
  -- default.
  unfoldable pub parse_env {ℓ} :
      {A : Type ℓ} → Environment → Variable → (Bytes → Option A) → A → Loaded A
  parse_env {A = A} env v parse d = parsed (env v)
    where
      parsed : Bytes → Loaded A
      parsed [] = loaded d
      parsed (c ∷ s) = elim (parse (c ∷ s)) [ none ↦ failed (malformed v) | some a ↦ loaded a ]

  -- parseInt32Env: the int32 is a pattern of 32 bits.
  abbrev pub parse_int32 : Bytes → Option ℕ
  parse_int32 s = elim (parse_int 32 s) [ none ↦ none | some n ↦ some (n % 2 ^ 32) ]

  unfoldable pub load_config : Environment → Loaded Config
  load_config env = parse_env env chunk_size (parse_int 64) (64 * 1024 * 1024) >>= λ chunks.
      parse_env env block_size parse_int32 4096 >>= λ blocks.
      parse_env env max_size (parse_int 64) (1024 * 1024 * 1024 * 1024) >>= λ max.
      if le64 max 0
      then failed max_size_not_positive
      else parse_env env force_path_style parse_bool false >>= λ path_style.
          parse_env env compaction_threshold P.parse_float P.default_threshold >>= λ threshold.
          parse_env env persist_interval P.parse_duration 30000000000 >>= λ interval.
          parse_env env allow_other parse_bool true >>= λ others. loaded (record {
            chunk_size = chunks;
            block_size = blocks;
            max_fs_size = max;
            cache_dir = or_default (env cache_dir) default_cache_dir;
            bucket = env bucket;
            endpoint = env endpoint;
            region = or_default (env region) default_region;
            access_key = env access_key;
            secret_key = env secret_key;
            force_path_style = path_style;
            prefix = env prefix;
            broker_url = env broker_url;
            broker_auth_header = or_default (env broker_auth_header) default_broker_auth_header;
            broker_auth_value = env broker_auth_value;
            compaction_threshold = threshold;
            persist_interval = interval;
            allow_other = others;
          })
