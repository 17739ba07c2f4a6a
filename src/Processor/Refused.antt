-- ===== src/Processor/Refused.antt =====
-- What becomes of a job when Postgres fails at `mark_running`: the failure is caught, but
-- `mark_failed` wants a running row.
use krmed_cloud_services.Base.{
  Text, ℕ, ◌+◌, ◌≡◌, refl, ap, ◌∙◌, true, false, some, [], ◌∷◌, contains, contains-remove_all_self,
  text_eq_refl,
}
use krmed_cloud_services.Effects.{ok, service_error, pure, continue, ◌>>=◌}
use krmed_cloud_services.Effects.Runs.{Runs, Raises, Runs-then, Raises-then, Raises-attempt}
use krmed_cloud_services.Schema.{
  Job, queued, running, failed, status_eq, status_value, is_terminal, worker_error,
}
use krmed_cloud_services.Schema.Uuid.{uuid_of, uuid_str}
use krmed_cloud_services.World.{World, Event, JobRow, up, refused, service, happen, act_all}
use krmed_cloud_services.Queue.{drop_processing}
use krmed_cloud_services.Status.{put_status, hash_of, hash_of-put_status, terminal_ttl_seconds}
use krmed_cloud_services.Repository.{find_row, get_job, to_job, mark_running, update, set_failed}
use krmed_cloud_services.Repository.Rows.{find_row-update_jobs, find_row_id, row_to_job_lem}
use krmed_cloud_services.Repository.Readable.{has_fields, row_to_job_returns}
use krmed_cloud_services.Calls.{
  mark_failed-Runs, publish-Runs, ack-Runs, update-IsCalm, put_status-IsCalm,
}
use krmed_cloud_services.Executor.{Executor}
use krmed_cloud_services.Processor.{run, fail, message_of, execute, handle, dispatch, process}

-- A call that is served, and one that is refused, with nobody else about.
abbrev pub served : ℕ → Event
served n = record { elapsed = n; others = []; fault = up }

abbrev pub failing : ℕ → Event
failing n = record { elapsed = n; others = []; fault = refused }

module _ (executor : Executor) (raw : Text) (id m : ℕ) (row : JobRow) (job : Job) (w : World)
    (events : w.schedule ≡ failing m ∷ []) (same : job.id ≡ id)
    (found : find_row id w.jobs ≡ some row) (waits : row.status ≡ queued) where
  -- The world when `mark_running` has raised.
  abbrev missed : World
  missed = record w { now = w.now + m; schedule = [] }

  abbrev told : World
  told =
      put_status (uuid_str id) (status_value failed) true
        (update id running (set_failed (worker_error service_error)) missed)

  run-Raises : Raises (run executor job) w service_error missed
  unfolding run mark_running service happen act_all
  run-Raises = Raises-then _ (record { raises = rw events refl })

  fail-Runs : Runs (fail raw id (worker_error service_error)) missed tt (drop_processing raw told)
  unfolding fail
  fail-Runs =
      let gone = update-IsCalm missed refl id running (set_failed (worker_error service_error)) in
      Runs-then (mark_failed-Runs missed refl id (worker_error service_error)) (
        Runs-then (publish-Runs _ gone (uuid_str id) (status_value failed) true)
          (ack-Runs _ (put_status-IsCalm _ gone (uuid_str id) (status_value failed) true) raw))

  execute-Runs : Runs (execute executor raw id job) w tt (drop_processing raw told)
  unfolding execute message_of
  execute-Runs = Raises-attempt _ _ run-Raises fail-Runs

  still_there : find_row id (drop_processing raw told).jobs ≡ some row
  unfolding drop_processing put_status update
  still_there =
      find_row-update_jobs id running (set_failed (worker_error service_error) (w.now + m)) w.jobs
        (λ r. refl)
      ∙ (unfold status_eq in rw (found, waits) refl)

-- The row is queued, its hash says that the job has failed, and the text is not in flight.
pub record Misreported (raw : Text) (id : ℕ) (row : JobRow) (u : World) : Type 0 where
  pub row_is : find_row id u.jobs ≡ some row
  pub hash_is :
      hash_of (uuid_str id) u
      ≡ some (record {
        status = status_value failed;
        updated_at = u.now;
        ttl = some terminal_ttl_seconds;
      })
  pub acked : contains raw u.processing ≡ false

module _ (executor : Executor) (raw : Text) (id n m : ℕ) (row : JobRow) (w : World)
    (events : w.schedule ≡ served n ∷ failing m ∷ []) (found : find_row id w.jobs ≡ some row)
    (waits : row.status ≡ queued) (complete : has_fields row.hyperparameters ≡ true) where
  -- The world when the row has been read.
  abbrev seen : World
  seen = record w { now = w.now + n; schedule = failing m ∷ [] }

  abbrev read_job : Job
  read_job = (row_to_job_returns row seen complete).0

  get_job-Runs : Runs (get_job id) w (some read_job) seen
  unfolding get_job to_job service happen act_all ◌>>=◌ pure
  get_job-Runs = record {
    returns = rw events (
        ap (λ o. to_job o seen) found
        ∙ ap (λ r. continue r (λ j. pure (some j))) (row_to_job_returns row seen complete).1);
  }

  handled :
      is_terminal read_job.status ≡ false
      → read_job.id ≡ id
      → (u : World) × Runs (handle executor raw id (some read_job)) seen tt u
        × Misreported raw id row u
  unfolding handle
  handled active same = (
    drop_processing raw (told executor raw id m row read_job seen refl same found waits),
    record {
      returns =
          rw active
            (execute-Runs executor raw id m row read_job seen refl same found waits).returns;
    },
    record {
      row_is = still_there executor raw id m row read_job seen refl same found waits;
      hash_is =
          unfold drop_processing in
          hash_of-put_status (uuid_str id) (uuid_str id) (status_value failed) true (
            update id running (set_failed (worker_error service_error))
              (missed executor raw id m row read_job seen refl same found waits))
          ∙ (unfold update put_status in rw (text_eq_refl (uuid_str id)) refl);
      acked = unfold drop_processing in contains-remove_all_self raw _;
    },
  )

  -- When nobody else acts, the reading of the row is served and `mark_running` is refused, and then
  -- nothing fails: `process` of a text of the id of a queued job whose row can be read returns, the
  -- row is still queued and unchanged, yet the status hash says that the job has failed, for its time
  -- to live, and the text is in flight no more.
  pub process-Misreported :
      uuid_of raw ≡ some id
      → (u : World) × (process executor raw w ≡ (ok tt, u)) × Misreported raw id row u
  unfolding process dispatch ◌>>=◌
  process-Misreported parsed =
      let (t, i, s, more, rest) =
        row_to_job_lem row seen seen (row_to_job_returns row seen complete).1 in
      let (u, ran, mis) =
        handled (ap is_terminal (s ∙ waits) ∙ (unfold is_terminal in refl))
          (i ∙ find_row_id id w.jobs found) in
      (
        u,
        ap (λ p. dispatch executor raw p w) parsed
            ∙ ap (λ r. continue r (handle executor raw id)) get_job-Runs.returns
            ∙ ran.returns,
        mis,
      )
