-- ===== src/Registry/Models.antt =====
-- ml-platform/scripts/register_model.py: `main`, from the environment to the table, and what the worker
-- then reads of it. The lookup at Hugging Face is a parameter.
pub mod Gate
use krmed_cloud_services.Base.{
  Text, ℕ, Bool, Option, none, some, List, [], ◌∷◌, codes, ◌==◌, if◌then◌else◌,
}
use krmed_cloud_services.Config.{Environ, missing_keys}
use krmed_cloud_services.Guardrail.{vram_hint_for}
use krmed_cloud_services.Paths.{split}
use krmed_cloud_services.World.{ModelRow}
use krmed_cloud_services.Registry.{
  ModelEntry, ModelTable, Registration, registered, already_registered, register_model,
}

pub record Arguments : Type 0 where
  pub repo_id : Text
  pub revision : Option Text
  pub display_name : Option Text
  pub set_default : Bool

-- What the script reads of the answer of `model_info`: `sha`, and `safetensors` with its `total`.
pub record ModelInfo : Type 0 where
  pub sha : Option Text
  pub safetensors : Option (Option ℕ)

-- `model_info` by the repository and the revision; `none` when it raises.
abbrev pub Lookup : Type 0
Lookup = Text → Option Text → Option ModelInfo

-- The ways in which the script fails: `sys.exit(1)`, and three exceptions.
pub data Failure : Type 0 where
  missing_environment : List Text → Failure
  lookup_failed : Failure
  no_commit_sha : Text → Failure
  value_error : ℕ → Failure

-- How it ends: with the id of the new row, or with a failure.
pub data Finish : Type 0 where
  finished : ℕ → Finish
  failed : Failure → Finish

abbrev pub Metadata : Type 0
Metadata = Text × Option ℕ

pub data Fetched : Type 0 where
  fetched : Metadata → Fetched
  not_fetched : Failure → Fetched

-- `int(safetensors.total)` of a total that is there and not 0
abbrev pub count_of : Option (Option ℕ) → Option ℕ
count_of none = none
count_of (some none) = none
count_of (some (some n)) = if n == 0 then none else some n

abbrev with_sha : Text → Option Text → Option ℕ → Fetched
with_sha repo none count = not_fetched (no_commit_sha repo)
with_sha repo (some []) count = not_fetched (no_commit_sha repo)
with_sha repo (some (c ∷ sha)) count = fetched (c ∷ sha, count)

abbrev resolved : Text → Option ModelInfo → Fetched
resolved repo none = not_fetched lookup_failed
resolved repo (some info) = with_sha repo info.sha (count_of info.safetensors)

unfoldable pub fetch_hf_metadata : Lookup → Text → Option Text → Fetched
fetch_hf_metadata model_info repo_id revision = resolved repo_id (model_info repo_id revision)

abbrev pub last_of : Text → List Text → Text
last_of t [] = t
last_of t (u ∷ us) = last_of u us

-- `repo_id.split("/")[-1]`
unfoldable pub repo_name : Text → Text
repo_name repo_id = let (p, ps) = split b'/' repo_id in last_of p ps

abbrev pub label : Option Text → Text → Text
label none name = name
label (some []) name = name
label (some (c ∷ t)) name = c ∷ t

abbrev finish_of : Registration × ModelTable → Finish × ModelTable
finish_of (registered id, t) = (finished id, t)
finish_of (already_registered id, t) = (failed (value_error id), t)

abbrev pub after_fetch : Arguments → Fetched → ModelTable → Finish × ModelTable
after_fetch args (not_fetched f) t = (failed f, t)
after_fetch args (fetched (revision, count)) t = finish_of (
    register_model args.repo_id revision (label args.display_name (repo_name args.repo_id)) count
      (vram_hint_for count) args.set_default t)

abbrev pub after_check : List Text → Fetched → Arguments → ModelTable → Finish × ModelTable
after_check [] answer args t = after_fetch args answer t
after_check (k ∷ ks) answer args t = (failed (missing_environment (k ∷ ks)), t)

abbrev pub required_env : List Text
required_env = codes "DATABASE_URL" ∷ []

-- `main`
unfoldable pub register_main : Environ → Lookup → Arguments → ModelTable → Finish × ModelTable
unfolding repo_name
register_main env model_info args t =
    after_check (missing_keys env required_env)
      (fetch_hf_metadata model_info args.repo_id args.revision) args t

-- A row of the table as the worker reads it.
unfoldable pub as_row : ModelEntry → ModelRow
as_row r = record {
  hf_repo_id = r.hf_repo_id;
  revision = r.revision;
  param_count = r.param_count;
  vram_hint = r.vram_hint;
  ready = r.ready;
  is_default = r.is_default;
}
