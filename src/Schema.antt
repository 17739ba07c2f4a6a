-- ===== src/Schema.antt =====
-- ml-platform/shared/schema/job.py: the job and its status, with the text of each status.
pub mod Uuid
use krmed_cloud_services.Base.{
  Text, ℕ, ◌≡◌, refl, Bool, true, false, Option, none, some, codes, text_eq, if◌then◌else◌, arith,
}
use krmed_cloud_services.Effects.{Exn}

pub data JobStatus : Type 0 where
  queued running completed failed cancelled : JobStatus

-- The value of each member of the enum.
unfoldable pub status_value : JobStatus → Text
status_value queued = codes "queued"
status_value running = codes "running"
status_value completed = codes "completed"
status_value failed = codes "failed"
status_value cancelled = codes "cancelled"

-- `JobStatus(value)`; `none` is the `ValueError`.
unfoldable pub status_of : Text → Option JobStatus
unfolding text_eq
status_of t =
    if text_eq t (codes "queued")
    then some queued
    else if text_eq t (codes "running")
    then some running
    else if text_eq t (codes "completed")
    then some completed
    else if text_eq t (codes "failed")
    then some failed
    else if text_eq t (codes "cancelled")
    then some cancelled
    else none

pub status_of-status_value : (s : JobStatus) → status_of (status_value s) ≡ some s
unfolding status_of status_value
status_of-status_value queued = refl
status_of-status_value running = refl
status_of-status_value completed = refl
status_of-status_value failed = refl
status_of-status_value cancelled = refl

unfoldable pub status_eq : JobStatus → JobStatus → Bool
status_eq queued queued = true
status_eq running running = true
status_eq completed completed = true
status_eq failed failed = true
status_eq cancelled cancelled = true
status_eq _ _ = false

-- `_TERMINAL_STATUSES` of the processor
unfoldable pub is_terminal : JobStatus → Bool
is_terminal completed = true
is_terminal failed = true
is_terminal cancelled = true
is_terminal _ = false

-- A value of a JSON object as psycopg2 hands it over; the worker passes these on unread.
pub data Json : Type 0 where
  null : Json
  boolean : Bool → Json
  number : Text → Json
  string : Text → Json

pub record Hyperparameters : Type 0 where
  pub learning_rate : Json
  pub epochs : Json
  pub batch_size : Json
  pub lora_rank : Json
  pub lora_alpha : Json

-- The text of an error message: `str(rejection)`, `f"worker error: {exc}"`, or one that another
-- writer of the column stored.
pub data Message : Type 0 where
  rejection : Exn → Message
  worker_error : Exn → Message
  stored : Text → Message

-- Times are in seconds; an id is the integer of its UUID.
pub record Job : Type 0 where
  pub id : ℕ
  pub status : JobStatus
  pub base_model : Text
  pub dataset_path : Text
  pub hyperparameters : Hyperparameters
  pub checkpoint_path : Option Text
  pub error_message : Option Message
  pub created_at : ℕ
  pub updated_at : ℕ

pub status_eq→eq : (s t : JobStatus) → status_eq s t ≡ true → s ≡ t
unfolding status_eq
status_eq→eq s t h = ground arith

pub status_eq_refl : (s : JobStatus) → status_eq s s ≡ true
unfolding status_eq
status_eq_refl s = ground arith
