-- ===== src/Processor.antt =====
-- ml-platform/worker/crucible_worker/processor.py: one job, from claim to ack. Log lines are left out.
pub mod Acks
pub mod Good
pub mod Tables
pub mod Frozen
pub mod Timed
pub mod Started
pub mod Settles
pub mod Poison
pub mod Cancelled
pub mod Reports
pub mod Outcome
pub mod Refused
use krmed_cloud_services.Base.{Text, ℕ, Bool, true, false, Option, none, some, if◌then◌else◌}
use krmed_cloud_services.Effects.{
  Exn, unsupported_format, oversized_model, not_in_allow_list, pure, raise, ◌>>=◌, ◌>>◌, attempt,
  or_raise,
}
use krmed_cloud_services.Schema.{
  JobStatus, running, completed, failed, status_value, is_terminal, Message, rejection,
  worker_error, Job,
}
use krmed_cloud_services.Schema.Uuid.{uuid_of, uuid_str}
use krmed_cloud_services.World.{M}
use krmed_cloud_services.Queue.{ack}
use krmed_cloud_services.Status.{publish}
use krmed_cloud_services.Guardrail.{check_model_fits}
use krmed_cloud_services.Validation.{validate_dataset_format}
use krmed_cloud_services.Repository.{
  ModelMeta, get_job, get_model_meta, mark_running, mark_completed, mark_failed, heartbeat,
}
use krmed_cloud_services.Executor.{Executor}

-- The `heartbeat` closure of `_run`.
unfoldable pub beat : ℕ → M (Unit {0})
beat id = heartbeat id >> publish (uuid_str id) (status_value running) false

-- The gates of `_run`, between the transition to running and the executor.
unfoldable pub preflight : Job → M ModelMeta
preflight job = do
  validate_dataset_format job.dataset_path
  found ← get_model_meta job.base_model
  model ← or_raise found (oversized_model (not_in_allow_list job.base_model))
  check_model_fits model.param_count model.vram_hint
  pure model

-- The end of `_run`.
unfoldable pub finish : ℕ → Text → M (Unit {0})
finish id checkpoint_path = do
  mark_completed id checkpoint_path
  publish (uuid_str id) (status_value completed) true

-- `_run`
unfoldable pub run : Executor → Job → M (Unit {0})
run executor job = do
  mark_running job.id
  publish (uuid_str job.id) (status_value running) false
  model ← preflight job
  result ← executor job model (beat job.id)
  finish job.id result.checkpoint_path

-- `_fail`
unfoldable pub fail : Text → ℕ → Message → M (Unit {0})
fail raw_job_id job_id message = do
  mark_failed job_id message
  publish (uuid_str job_id) (status_value failed) true
  ack raw_job_id

-- The two `except` clauses of `process`, by the class of the exception.
unfoldable pub message_of : Exn → Message
message_of (unsupported_format fmt path) = rejection (unsupported_format fmt path)
message_of (oversized_model reason) = rejection (oversized_model reason)
message_of e = worker_error e

unfoldable pub execute : Executor → Text → ℕ → Job → M (Unit {0})
execute executor raw_job_id job_id job =
    attempt (run executor job) (λ e. fail raw_job_id job_id (message_of e)) (λ _. ack raw_job_id)

-- What `process` does with the row that it found.
unfoldable pub handle : Executor → Text → ℕ → Option Job → M (Unit {0})
handle executor raw_job_id job_id none = ack raw_job_id
handle executor raw_job_id job_id (some job) =
    if is_terminal job.status then ack raw_job_id else execute executor raw_job_id job_id job

unfoldable pub dispatch : Executor → Text → Option ℕ → M (Unit {0})
dispatch executor raw_job_id none = ack raw_job_id
dispatch executor raw_job_id (some job_id) = get_job job_id >>= handle executor raw_job_id job_id

unfoldable pub process : Executor → Text → M (Unit {0})
process executor raw_job_id = dispatch executor raw_job_id (uuid_of raw_job_id)
