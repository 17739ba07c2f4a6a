-- ===== src/Config.antt =====
-- ml-platform/worker/crucible_worker/config.py: the settings from the environment.
pub mod Required
use krmed_cloud_services.Base.{
  Text, ℕ, ◌+◌, ◌-◌, ◌*◌, suc, zero, Bool, true, false, not, ◌&&◌, ◌||◌, Option, none, some, List,
  [], ◌∷◌, codes, text_eq, leb, ◌==◌, is_empty, if◌then◌else◌,
}
use krmed_cloud_services.Schema.Uuid.{strip, is_space, is_c_space}
use krmed_cloud_services.Paths.{split}

-- `negsuc n` is -(n + 1).
pub data ℤ : Type 0 where
  pos : ℕ → ℤ
  negsuc : ℕ → ℤ

pub data ConfigError : Type 0 where
  missing_variables : List Text → ConfigError
  not_an_integer : Text → Text → ConfigError
  no_gpu_ids : Text → Text → ConfigError

pub data Outcome (A : Type 0) : Type 0 where
  loaded : A → Outcome A
  config_error : ConfigError → Outcome A

infixl 5 ◌>>=◌
abbrev pub ◌>>=◌ : {A B : Type 0} → Outcome A → (A → Outcome B) → Outcome B
loaded a >>= f = f a
config_error e >>= f = config_error e

abbrev pub Environ : Type 0
Environ = List (Text × Text)

-- `os.environ.get(key)`
unfoldable pub get : Environ → Text → Option Text
get [] key = none
get ((k, v) ∷ rest) key = if text_eq k key then some v else get rest key

abbrev pub required_env : List Text
required_env =
    codes "DATABASE_URL"
    ∷ codes "REDIS_URL"
    ∷ codes "GARAGE_ENDPOINT"
    ∷ codes "GARAGE_ACCESS_KEY"
    ∷ codes "GARAGE_SECRET_KEY"
    ∷ codes "GARAGE_BUCKET"
    ∷ []

abbrev pub or_blank : Option Text → Text
or_blank none = []
or_blank (some t) = t

-- `[k for k in keys if not os.environ.get(k)]`
unfoldable pub missing_keys : Environ → List Text → List Text
missing_keys env [] = []
missing_keys env (k ∷ ks) =
    let rest = missing_keys env ks in if is_empty (or_blank (get env k)) then k ∷ rest else rest

-- One character of a decimal literal: whether a digit must follow, and the value so far.
unfoldable pub decimal_step : Bool → ℕ → ℕ → Option (Bool × ℕ)
decimal_step pending acc c =
    if c == b'_'
    then (if pending then none else some (true, acc))
    else if leb 48 c && leb c 57
    then some (false, acc * 10 + (c - 48))
    else none

unfoldable pub decimal_from : Bool → ℕ → Text → Option ℕ
decimal_from pending acc [] = if pending then none else some acc
decimal_from pending acc (c ∷ t) = elim (decimal_step pending acc c) [
  | none ↦ none
  | some (pending', acc') ↦ decimal_from pending' acc' t
]

abbrev negated : ℕ → ℤ
negated zero = pos 0
negated (suc n) = negsuc n

abbrev map_int : (ℕ → ℤ) → Option ℕ → Option ℤ
map_int f none = none
map_int f (some n) = some (f n)

unfoldable pub signed : Text → Option ℤ
signed [] = none
signed (c ∷ t) =
    if c == b'-'
    then map_int negated (decimal_from true 0 t)
    else if c == b'+'
    then map_int pos (decimal_from true 0 t)
    else map_int pos (decimal_from true 0 (c ∷ t))

-- `int(raw)` of an ASCII text; `none` is the `ValueError`.
unfoldable pub int_of : Text → Option ℤ
unfolding strip is_c_space signed decimal_from decimal_step
int_of raw = signed (strip is_c_space raw)

abbrev or_error : Text → Text → Option ℤ → Outcome ℤ
or_error key raw none = config_error (not_an_integer key raw)
or_error key raw (some n) = loaded n

abbrev int_or : Text → ℤ → Option Text → Outcome ℤ
int_or key default none = loaded default
int_or key default (some []) = loaded default
int_or key default (some (c ∷ t)) = or_error key (c ∷ t) (int_of (c ∷ t))

-- `_int_env`
unfoldable pub int_env : Environ → Text → ℤ → Outcome ℤ
int_env env key default = int_or key default (get env key)

abbrev pub default_gpu_ids : List Text
default_gpu_ids = codes "0" ∷ []

-- `part.strip() for part in parts if part.strip()`
unfoldable pub stripped : List Text → List Text
stripped [] = []
stripped (p ∷ ps) =
    let rest = stripped ps in if is_empty (strip is_space p) then rest else strip is_space p ∷ rest

abbrev all_parts : Text × List Text → List Text
all_parts (p, ps) = p ∷ ps

abbrev or_no_ids : Text → Text → List Text → Outcome (List Text)
or_no_ids key raw [] = config_error (no_gpu_ids key raw)
or_no_ids key raw (i ∷ is) = loaded (i ∷ is)

abbrev ids_or : Text → List Text → Option Text → Outcome (List Text)
ids_or key default none = loaded default
ids_or key default (some raw) =
    if is_empty (strip is_space raw)
    then loaded default
    else or_no_ids key raw (stripped (all_parts (split b',' raw)))

-- `_gpu_ids_env`
unfoldable pub gpu_ids_env : Environ → Text → List Text → Outcome (List Text)
gpu_ids_env env key default = ids_or key default (get env key)

pub record Config : Type 0 where
  pub database_url : Text
  pub redis_url : Text
  pub garage_endpoint : Text
  pub garage_access_key : Text
  pub garage_secret_key : Text
  pub garage_bucket : Text
  pub model_cache_dir : Text
  pub queue_block_seconds : ℤ
  pub visibility_timeout_seconds : ℤ
  pub reconcile_interval_seconds : ℤ
  pub orphan_grace_seconds : ℤ
  pub gpu_ids : List Text

abbrev or_default : Text → Option Text → Text
or_default d none = d
or_default d (some t) = t

-- The part of `load` behind the check of the required variables.
unfoldable pub build : Environ → Outcome Config
build env = do
  queue_block ← int_env env (codes "QUEUE_BLOCK_SECONDS") (pos 5)
  visibility ← int_env env (codes "VISIBILITY_TIMEOUT_SECONDS") (pos (15 * 60))
  interval ← int_env env (codes "RECONCILE_INTERVAL_SECONDS") (pos (5 * 60))
  grace ← int_env env (codes "ORPHAN_GRACE_SECONDS") (pos 60)
  gpu_ids ← gpu_ids_env env (codes "CRUCIBLE_GPUS") default_gpu_ids
  loaded (record {
    database_url = or_blank (get env (codes "DATABASE_URL"));
    redis_url = or_blank (get env (codes "REDIS_URL"));
    garage_endpoint = or_blank (get env (codes "GARAGE_ENDPOINT"));
    garage_access_key = or_blank (get env (codes "GARAGE_ACCESS_KEY"));
    garage_secret_key = or_blank (get env (codes "GARAGE_SECRET_KEY"));
    garage_bucket = or_blank (get env (codes "GARAGE_BUCKET"));
    model_cache_dir = or_default (codes "/var/crucible/models") (get env (codes "MODEL_CACHE_DIR"));
    queue_block_seconds = queue_block;
    visibility_timeout_seconds = visibility;
    reconcile_interval_seconds = interval;
    orphan_grace_seconds = grace;
    gpu_ids = gpu_ids;
  })

abbrev unless_missing : List Text → Outcome Config → Outcome Config
unless_missing [] built = built
unless_missing (k ∷ ks) built = config_error (missing_variables (k ∷ ks))

unfoldable pub load : Environ → Outcome Config
load env = let built = build env in unless_missing (missing_keys env required_env) built
