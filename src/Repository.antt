-- ===== src/Repository.antt =====
-- ml-platform/worker/crucible_worker/db.py and repository.py: the jobs and models in Postgres. Each
-- method is one transaction. Every update of a job is conditional on its status.
pub mod Table
pub mod Rowwise
pub mod Lifecycle
pub mod Results
pub mod Frozen
pub mod Readable
pub mod Rows
use krmed_cloud_services.Base.{
  Text, ℕ, ◌+◌, Bool, true, false, ◌&&◌, Option, none, some, List, [], ◌∷◌, codes, text_eq, ltb,
  ◌==◌, find, if◌then◌else◌, map, keep_if,
}
use krmed_cloud_services.Effects.{Exn, key_error, Exec, pure, or_raise, ◌>>=◌, ◌>>◌}
use krmed_cloud_services.Schema.{
  JobStatus, queued, running, completed, failed, status_eq, Json, Hyperparameters, Message, Job,
}
use krmed_cloud_services.World.{
  World, M, JobRow, ModelRow, moved, starts, lives, gives_back, completes, fails, update_jobs,
  service, read, write,
}

pub record ModelMeta : Type 0 where
  pub hf_repo_id : Text
  pub revision : Text
  pub param_count : Option ℕ
  pub vram_hint : Option Text

unfoldable pub lookup_json : Text → List (Text × Json) → Option Json
lookup_json key [] = none
lookup_json key ((k, v) ∷ rest) = if text_eq k key then some v else lookup_json key rest

-- `hp[key]`, which raises `KeyError`
abbrev field : {S : Type 0} → Text → List (Text × Json) → Exec S Json
field key hp = or_raise (lookup_json key hp) (key_error key)

-- `_row_to_job`. A NULL or empty column of hyperparameters is the empty object.
unfoldable pub row_to_job : {S : Type 0} → JobRow → Exec S Job
row_to_job row = do
  learning_rate ← field (codes "learning_rate") row.hyperparameters
  epochs ← field (codes "epochs") row.hyperparameters
  batch_size ← field (codes "batch_size") row.hyperparameters
  lora_rank ← field (codes "lora_rank") row.hyperparameters
  lora_alpha ← field (codes "lora_alpha") row.hyperparameters
  pure (record {
    id = row.id;
    status = row.status;
    base_model = row.base_model;
    dataset_path = row.dataset_path;
    hyperparameters = record {
      learning_rate = learning_rate;
      epochs = epochs;
      batch_size = batch_size;
      lora_rank = lora_rank;
      lora_alpha = lora_alpha;
    };
    checkpoint_path = row.checkpoint_path;
    error_message = row.error_message;
    created_at = row.created_at;
    updated_at = row.updated_at;
  })

abbrev pub find_row : ℕ → List JobRow → Option JobRow
find_row id rows = find (λ r. r.id == id) rows

unfoldable pub to_job : {S : Type 0} → Option JobRow → Exec S (Option Job)
to_job none = pure none
to_job (some row) = row_to_job row >>= λ job. pure (some job)

unfoldable pub get_job : ℕ → M (Option Job)
get_job job_id = do row ← service (read (λ w. find_row job_id w.jobs)); to_job row

abbrev is_candidate : Text → ModelRow → Bool
is_candidate repo r = text_eq r.hf_repo_id repo && r.ready

unfoldable pub to_meta : ModelRow → ModelMeta
to_meta r = record {
  hf_repo_id = r.hf_repo_id;
  revision = r.revision;
  param_count = r.param_count;
  vram_hint = r.vram_hint;
}

abbrev or_else : Option ModelRow → Option ModelRow → Option ModelRow
or_else none b = b
or_else (some a) b = some a

-- `WHERE hf_repo_id = … AND status = 'ready' ORDER BY is_default DESC LIMIT 1`; among equals the
-- first row of the table is taken, where Postgres may take any.
unfoldable pub select_model : Text → List ModelRow → Option ModelRow
select_model repo rows =
    or_else (find (λ r. is_candidate repo r && r.is_default) rows) (find (is_candidate repo) rows)

abbrev pub meta_of : Option ModelRow → Option ModelMeta
meta_of none = none
meta_of (some r) = some (to_meta r)

unfoldable pub get_model_meta : Text → M (Option ModelMeta)
get_model_meta hf_repo_id = service (read (λ w. meta_of (select_model hf_repo_id w.models)))

-- `_update`: SET … WHERE id = … AND status = …
unfoldable pub update : ℕ → JobStatus → (ℕ → JobRow → JobRow) → World → World
update id expected f w = record w { jobs = update_jobs id expected (f w.now) w.jobs }

abbrev pub set_running : ℕ → JobRow → JobRow
set_running = moved starts

abbrev pub set_seen : ℕ → JobRow → JobRow
set_seen = moved lives

abbrev pub set_completed : Text → ℕ → JobRow → JobRow
set_completed path = moved (completes path)

abbrev pub set_failed : Message → ℕ → JobRow → JobRow
set_failed message = moved (fails message)

abbrev pub set_queued : ℕ → JobRow → JobRow
set_queued = moved gives_back

unfoldable pub mark_running : ℕ → M (Unit {0})
mark_running id = service (write (update id queued set_running))

unfoldable pub heartbeat : ℕ → M (Unit {0})
heartbeat id = service (write (update id running set_seen))

unfoldable pub mark_completed : ℕ → Text → M (Unit {0})
mark_completed id path = service (write (update id running (set_completed path)))

unfoldable pub mark_failed : ℕ → Message → M (Unit {0})
mark_failed id message = service (write (update id running (set_failed message)))

unfoldable pub reset_to_queued : ℕ → M (Unit {0})
reset_to_queued id = service (write (update id running set_queued))

-- `updated_at < NOW() - make_interval(secs => age)`
unfoldable pub older_than : ℕ → ℕ → ℕ → Bool
older_than age now time = ltb (time + age) now

unfoldable pub is_stale : ℕ → ℕ → JobRow → Bool
unfolding older_than
is_stale age now r = status_eq r.status running && older_than age now r.updated_at

unfoldable pub is_orphan : ℕ → ℕ → JobRow → Bool
unfolding older_than
is_orphan grace now r =
    status_eq r.status queued
    && (older_than grace now r.created_at && older_than grace now r.updated_at)

abbrev pub ids : List JobRow → List ℕ
ids [] = []
ids (r ∷ rs) = r.id ∷ ids rs

unfoldable pub find_stale_running : ℕ → M (List ℕ)
find_stale_running age = service (read (λ w. ids (keep_if (is_stale age w.now) w.jobs)))

unfoldable pub find_orphan_queued : ℕ → M (List ℕ)
find_orphan_queued grace = service (read (λ w. ids (keep_if (is_orphan grace w.now) w.jobs)))
