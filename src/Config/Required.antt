-- ===== src/Config/Required.antt =====
-- What a loaded configuration guarantees.
use krmed_cloud_services.Base.{
  Text, ◌≡◌, refl, ap, subst, false, Option, none, some, List, [], ◌∷◌, codes, is_empty, All, arith,
  Bool-cases, inl, inr,
}
use krmed_cloud_services.Schema.Uuid.{strip, is_space}
use krmed_cloud_services.Paths.{split}
use krmed_cloud_services.Config.{
  Outcome, loaded, config_error, ◌>>=◌, Environ, get, required_env, or_blank, missing_keys, int_env,
  stripped, all_parts, or_no_ids, ids_or, gpu_ids_env, Config, build, unless_missing, load,
  default_gpu_ids,
}

-- Inversion of a bind that loads.
pub >>=-eq-loaded :
    {A B : Type 0} (m : Outcome A) (f : A → Outcome B) {b : B}
    → (m >>= f) ≡ loaded b
    → (a : A) × (m ≡ loaded a) × (f a ≡ loaded b)
>>=-eq-loaded (loaded a) f h = (a, refl, h)
>>=-eq-loaded (config_error e) f h = cc

-- No GPU id is blank, and there is at least one.
abbrev pub AreGpuIds : List Text → Type 0
AreGpuIds l = (is_empty l ≡ false) × All (λ t. is_empty t ≡ false) l

stripped_nonempty : (parts : List Text) → All (λ t. is_empty t ≡ false) (stripped parts)
unfolding stripped
stripped_nonempty [] = tt
stripped_nonempty (p ∷ ps) = elim (Bool-cases (is_empty (strip is_space p))) [
  | inl blank ↦ rw blank (stripped_nonempty ps)
  | inr kept ↦ rw kept (kept, stripped_nonempty ps)
]

or_no_ids-AreGpuIds :
    (key raw : Text) (l ids : List Text)
    → All (λ t. is_empty t ≡ false) l
    → or_no_ids key raw l ≡ loaded ids
    → AreGpuIds ids
or_no_ids-AreGpuIds key raw [] ids h e = cc
or_no_ids-AreGpuIds key raw (i ∷ is) ids h e =
    let same : i ∷ is ≡ ids = ground arith in subst AreGpuIds same (refl, h)

ids_or-AreGpuIds :
    (key : Text) (o : Option Text) (ids : List Text)
    → ids_or key default_gpu_ids o ≡ loaded ids
    → AreGpuIds ids
ids_or-AreGpuIds key none ids e =
    let same : default_gpu_ids ≡ ids = ground arith in subst AreGpuIds same (refl, (refl, tt))
ids_or-AreGpuIds key (some raw) ids e = elim (Bool-cases (is_empty (strip is_space raw))) [
  | inl blank ↦
      let same : default_gpu_ids ≡ ids = ground arith in subst AreGpuIds same (refl, (refl, tt))
  | inr given ↦
      or_no_ids-AreGpuIds key raw (stripped (all_parts (split b',' raw))) ids (stripped_nonempty _)
        (ground arith)
]

abbrev gpu_ids_of : Outcome Config → List Text
gpu_ids_of (loaded cfg) = cfg.gpu_ids
gpu_ids_of (config_error e) = []

built_gpu_ids : (env : Environ) (cfg : Config) → build env ≡ loaded cfg → AreGpuIds cfg.gpu_ids
unfolding build gpu_ids_env
built_gpu_ids env cfg h =
    let (a, _, h1) = >>=-eq-loaded (int_env env (codes "QUEUE_BLOCK_SECONDS") _) _ h in
    let (b, _, h2) = >>=-eq-loaded (int_env env (codes "VISIBILITY_TIMEOUT_SECONDS") _) _ h1 in
    let (c, _, h3) = >>=-eq-loaded (int_env env (codes "RECONCILE_INTERVAL_SECONDS") _) _ h2 in
    let (d, _, h4) = >>=-eq-loaded (int_env env (codes "ORPHAN_GRACE_SECONDS") _) _ h3 in
    let (ids, found, last) =
      >>=-eq-loaded (gpu_ids_env env (codes "CRUCIBLE_GPUS") default_gpu_ids) _ h4 in
    let same : ids ≡ cfg.gpu_ids = ap gpu_ids_of last in
    subst AreGpuIds same (ids_or-AreGpuIds (codes "CRUCIBLE_GPUS") _ ids found)

abbrev pub Provides : Environ → Text → Type 0
Provides env k = is_empty (or_blank (get env k)) ≡ false

none_missing :
    (env : Environ) (keys : List Text) → missing_keys env keys ≡ [] → All (Provides env) keys
unfolding missing_keys
none_missing env [] h = tt
none_missing env (k ∷ ks) h = elim (Bool-cases (is_empty (or_blank (get env k)))) [
  | inl blank ↦ absurd (ground arith)
  | inr given ↦ (given, none_missing env ks (ground arith))
]

unless_missing_loaded :
    (ks : List Text) (built : Outcome Config) (cfg : Config)
    → unless_missing ks built ≡ loaded cfg
    → (ks ≡ []) × (built ≡ loaded cfg)
unless_missing_loaded [] built cfg h = (refl, h)
unless_missing_loaded (k ∷ ks) built cfg h = cc

-- A configuration that loads has every required variable set and not empty, and at least one GPU id,
-- none of them blank.
pub load-required :
    (env : Environ) (cfg : Config)
    → load env ≡ loaded cfg
    → All (Provides env) required_env × AreGpuIds cfg.gpu_ids
unfolding load
load-required env cfg h =
    let (none_left, built) =
      unless_missing_loaded (missing_keys env required_env) (build env) cfg h in
    (none_missing env required_env none_left, built_gpu_ids env cfg built)
