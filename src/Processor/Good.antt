-- ===== src/Processor/Good.antt =====
-- What holds of every call that `process` makes, and is kept by each way to build code, holds of
-- `process`.
use krmed_cloud_services.Base.{Text, ℕ, Bool, Option, none, some}
use krmed_cloud_services.Effects.{Exn, ◌>>◌}
use krmed_cloud_services.Effects.Closed.{Closed, good_then, good_if, good_or_raise}
use krmed_cloud_services.Schema.{Job, Message, is_terminal}
use krmed_cloud_services.Schema.Uuid.{uuid_of}
use krmed_cloud_services.World.{
  World, M, JobRow, Step, starts, lives, completes, fails, needs_status, moved, service, read,
  write,
}
use krmed_cloud_services.Queue.{ack, drop_processing}
use krmed_cloud_services.Status.{publish, put_status}
use krmed_cloud_services.Guardrail.{check_model_fits, raise_if}
use krmed_cloud_services.Validation.{validate_dataset_format, judge}
use krmed_cloud_services.Repository.{
  ModelMeta, row_to_job, to_job, get_job, get_model_meta, update, mark_running, heartbeat,
  mark_completed, mark_failed,
}
use krmed_cloud_services.Executor.{Executor, ExecutionResult}
use krmed_cloud_services.Processor.{
  process, dispatch, handle, execute, run, preflight, finish, fail, message_of, beat,
}

-- Each call of Postgres and Redis that the processor makes is good.
pub record CallsGood {ℓ} (Good : (A : Type 0) → M A → Type ℓ) : Type (1 ⊔ ℓ) where
  pub reading : (A : Type 0) (f : World → A) → Good A (service (read f))
  pub moving :
      (id : ℕ) (step : Step)
      → Good (Unit {0}) (service (write (update id (needs_status step) (moved step))))
  pub publishing :
      (id status : Text) (terminal : Bool)
      → Good (Unit {0}) (service (write (put_status id status terminal)))
  pub acking : (t : Text) → Good (Unit {0}) (service (write (drop_processing t)))

-- A run of the executor is good if its heartbeat is.
pub record ExecutorGood {ℓ} (Good : (A : Type 0) → M A → Type ℓ) (executor : Executor)
    : Type ℓ where
  pub at :
      (job : Job) (model : ModelMeta)
      → Good (Unit {0}) (beat job.id)
      → Good ExecutionResult (executor job model (beat job.id))

module _ {ℓ} (Good : (A : Type 0) → M A → Type ℓ) (closed : Closed {S = World} Good)
    (calls : CallsGood Good) where
  pub publish_good :
      (id status : Text) (terminal : Bool) → Good (Unit {0}) (publish id status terminal)
  unfolding publish
  publish_good id status terminal = calls.publishing id status terminal

  pub ack_good : (t : Text) → Good (Unit {0}) (ack t)
  unfolding ack
  ack_good t = calls.acking t

  pub beat_good : (id : ℕ) → Good (Unit {0}) (beat id)
  unfolding beat heartbeat
  beat_good id = good_then Good closed (Unit {0}) _ _ (calls.moving id lives) (publish_good _ _ _)

  row_to_job_good : (row : JobRow) → Good Job (row_to_job row)
  unfolding row_to_job
  row_to_job_good row = search (closed.of_bind, good_or_raise Good closed, closed.of_pure) depth 12

  to_job_good : (row : Option JobRow) → Good (Option Job) (to_job row)
  unfolding to_job
  to_job_good none = closed.of_pure _ none
  to_job_good (some row) =
      closed.of_bind _ _ _ _ (row_to_job_good row) (λ job. closed.of_pure _ (some job))

  pub get_job_good : (id : ℕ) → Good (Option Job) (get_job id)
  unfolding get_job
  get_job_good id = closed.of_bind _ _ _ _ (calls.reading _ _) to_job_good

  raise_if_good : (e : Option Exn) → Good (Unit {0}) (raise_if e)
  raise_if_good none = closed.of_pure _ tt
  raise_if_good (some e) = closed.of_raise _ e

  judge_good : (path : Text) (fmt : Option Text) → Good (Option Text) (judge path fmt)
  unfolding judge
  judge_good path none = closed.of_pure _ none
  judge_good path (some fmt) =
      good_if Good closed _ _ _ _ (closed.of_pure _ (some fmt)) (closed.of_raise _ _)

  pub preflight_good : (job : Job) → Good ModelMeta (preflight job)
  unfolding preflight validate_dataset_format get_model_meta check_model_fits ◌>>◌
  preflight_good job = closed.of_bind _ _ _ _ (judge_good _ _) (λ fmt.
      closed.of_bind _ _ _ _ (calls.reading _ _) (λ found.
        closed.of_bind _ _ _ _ (good_or_raise Good closed _ found _)
          (λ model. closed.of_bind _ _ _ _ (raise_if_good _) (λ _. closed.of_pure _ model))))

  pub finish_good : (id : ℕ) (path : Text) → Good (Unit {0}) (finish id path)
  unfolding finish mark_completed
  finish_good id path =
      good_then Good closed _ _ _ (calls.moving id (completes path)) (publish_good _ _ _)

  pub fail_good : (raw : Text) (id : ℕ) (m : Message) → Good (Unit {0}) (fail raw id m)
  unfolding fail mark_failed
  fail_good raw id m =
      good_then Good closed _ _ _ (calls.moving id (fails m))
        (good_then Good closed _ _ _ (publish_good _ _ _) (ack_good raw))

  module _ (executor : Executor) (respects : ExecutorGood Good executor) where
    run_good : (job : Job) → Good (Unit {0}) (run executor job)
    unfolding run mark_running
    run_good job = good_then Good closed _ _ _ (calls.moving job.id starts) (
        good_then Good closed _ _ _ (publish_good _ _ _) (
          closed.of_bind _ _ _ _ (preflight_good job) (λ model.
            closed.of_bind _ _ _ _ (respects.at job model (beat_good job.id))
              (λ result. finish_good job.id result.checkpoint_path))))

    handle_good :
        (raw : Text) (id : ℕ) (found : Option Job) → Good (Unit {0}) (handle executor raw id found)
    unfolding handle execute
    handle_good raw id none = ack_good raw
    handle_good raw id (some job) =
        good_if Good closed _ (is_terminal job.status) _ _ (ack_good raw) (
          closed.of_attempt _ _ _ _ _ (run_good job) (λ e. fail_good raw id (message_of e))
            (λ _. ack_good raw))

    dispatch_good :
        (raw : Text) (parsed : Option ℕ) → Good (Unit {0}) (dispatch executor raw parsed)
    unfolding dispatch
    dispatch_good raw none = ack_good raw
    dispatch_good raw (some id) = closed.of_bind _ _ _ _ (get_job_good id) (handle_good raw id)

    pub process_good : (raw : Text) → Good (Unit {0}) (process executor raw)
    unfolding process
    process_good raw = dispatch_good raw (uuid_of raw)
