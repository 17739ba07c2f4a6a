-- ===== src/Processor/Settles.antt =====
-- Without faults, `process` returns, and its job has ended and is acknowledged.
use krmed_cloud_services.Base.{
  List, Text, ℕ, ◌≡◌, refl, ap, sym, ◌∙◌, true, false, Option, none, some, contains,
  contains-remove_all_self, Bool-cases, inl, inr, subst,
}
use krmed_cloud_services.Effects.{ok, ◌>>=◌, continue}
use krmed_cloud_services.Effects.Rules.{
  Triple, Triple-bind, Triple-then, Triple-attempt, Impossible, After,
}
use krmed_cloud_services.Effects.Steady.{Steady, returns_of}
use krmed_cloud_services.Schema.{Job, Message, is_terminal}
use krmed_cloud_services.Schema.Uuid.{uuid_of}
use krmed_cloud_services.World.{World, JobRow, write}
use krmed_cloud_services.World.Calm.{IsCalm}
use krmed_cloud_services.Queue.{ack, drop_processing}
use krmed_cloud_services.Repository.{ModelMeta, find_row, get_job}
use krmed_cloud_services.Repository.Rows.{Matches, get_job_lem, find_row_id}
use krmed_cloud_services.Executor.{Executor}
use krmed_cloud_services.Processor.{
  beat, finish, run, fail, message_of, execute, handle, dispatch, process,
}
use krmed_cloud_services.Processor.Started.{
  IsStarted, IsSettled, is_settled, call, mark_running-starts, publish-IsStarted, publish-IsSettled,
  mark_completed-settles, mark_failed-settles, preflight-IsStarted,
}

-- What a processed job comes to: no faults to come, its row in a terminal status (or no row), and
-- its id not in flight.
pub record IsFinished (raw : Text) (id : ℕ) (w : World) : Type 0 where
  pub calm : IsCalm w
  pub settled : is_settled (find_row id w.jobs) ≡ true
  pub acked : contains raw w.processing ≡ false

-- An executor that returns or raises, and leaves the job that it runs off the queue and the world
-- without faults: no other worker resets the job while it runs.
pub record Cooperates (executor : Executor) : Type 0 where
  pub at :
      (job : Job) (model : ModelMeta) → Steady (IsStarted job.id) (executor job model (beat job.id))

-- No row, or a terminal one, by what was read.
reads_none : (o : Option JobRow) → Matches o none → is_settled o ≡ true
reads_none none h = refl
reads_none (some row) h = absurd h

reads_terminal :
    (o : Option JobRow) (job : Job)
    → Matches o (some job)
    → is_terminal job.status ≡ true
    → is_settled o ≡ true
reads_terminal none job h t = absurd h
reads_terminal (some row) job h t = ap is_terminal (sym h.1) ∙ t

reads_id :
    (id : ℕ) (o : Option JobRow) (rows : List JobRow) (job : Job)
    → find_row id rows ≡ o
    → Matches o (some job)
    → job.id ≡ id
reads_id id none rows job e h = absurd h
reads_id id (some row) rows job e h = h.0 ∙ find_row_id id rows e

dispatch_found :
    (executor : Executor) (raw : Text) (id : ℕ) (found : Option Job) (w v : World)
    → get_job id w ≡ (ok found, v)
    → dispatch executor raw (some id) w ≡ handle executor raw id found v
unfolding dispatch ◌>>=◌
dispatch_found executor raw id found w v read_job =
    ap (λ r. continue r (handle executor raw id)) read_job

finish-settles :
    (id : ℕ) (path : Text)
    → Triple (IsStarted id) (finish id path) (λ _. IsSettled id) (λ _. IsStarted id) Impossible
unfolding finish
finish-settles id path =
    Triple-then (IsSettled id) _ _ (mark_completed-settles id path) (publish-IsSettled id _ _ _)

module _ (executor : Executor) (cooperates : Cooperates executor) where
  run-settles :
      (job : Job)
      → Triple IsCalm (run executor job) (λ _. IsSettled job.id) (λ _. IsStarted job.id) Impossible
  unfolding run
  run-settles job = Triple-then (IsStarted job.id) _ _ (mark_running-starts job.id) (
      Triple-then (IsStarted job.id) _ _ (publish-IsStarted job.id _ _ _) (
        Triple-bind (λ _. IsStarted job.id) _ _ (preflight-IsStarted job.id job)
          (λ model.
            Triple-bind (λ _. IsStarted job.id) _ _ (cooperates.at job model)
              (λ result. finish-settles job.id result.checkpoint_path))))

  module _ (raw : Text) (id : ℕ) where
    ack-finishes :
        Triple (IsSettled id) (ack raw) (λ _. IsFinished raw id) (λ _. Impossible) Impossible
    unfolding ack drop_processing
    ack-finishes =
        call (write (drop_processing raw)) (λ w h. h.calm)
          (λ w h. record {
            calm = h.calm;
            settled = h.settled;
            acked = contains-remove_all_self raw w.processing;
          })

    fail-finishes :
        (m : Message)
        → Triple
            (IsStarted id)
            (fail raw id m)
            (λ _. IsFinished raw id)
            (λ _. Impossible)
            Impossible
    unfolding fail
    fail-finishes m =
        Triple-then (IsSettled id) _ _ (mark_failed-settles id m)
          (Triple-then (IsSettled id) _ _ (publish-IsSettled id _ _ _) ack-finishes)

  execute-finishes :
      (raw : Text) (job : Job)
      → Triple IsCalm
          (execute executor raw job.id job)
          (λ _. IsFinished raw job.id)
          (λ _. Impossible)
          Impossible
  unfolding execute
  execute-finishes raw job =
      Triple-attempt (λ _. IsSettled job.id) (λ _. IsStarted job.id) (run executor job) _ _
        (run-settles job) (λ e. fail-finishes raw job.id (message_of e))
        (λ _. ack-finishes raw job.id)

  handle-finishes :
      (raw : Text) (id : ℕ) (found : Option Job) (w : World)
      → IsCalm w
      → Matches (find_row id w.jobs) found
      → After (λ _. IsFinished raw id) (λ _. Impossible) Impossible (handle executor raw id found w)
  unfolding handle
  handle-finishes raw id none w calm reads =
      (ack-finishes raw id).at w
        (record { calm = calm; settled = reads_none (find_row id w.jobs) reads })
  handle-finishes raw id (some job) w calm reads = elim (Bool-cases (is_terminal job.status)) [
    | inl ended ↦ rw ended (
        (ack-finishes raw id).at w
          (record { calm = calm; settled = reads_terminal (find_row id w.jobs) job reads ended }))
    | inr active ↦ rw active (
        subst
          (λ n.
            After (λ _. IsFinished raw n) (λ _. Impossible) Impossible
              (execute executor raw n job w))
          (reads_id id (find_row id w.jobs) w.jobs job refl reads)
          ((execute-finishes raw job).at w calm))
  ]

  -- Without faults, with an executor that returns or raises and leaves the job it runs off the queue,
  -- and if the row of the id is missing or can be read as a job: `process` of a text of the id
  -- returns; then the job is in a terminal status, if it exists, and the text is nowhere in flight.
  pub process_settles :
      (raw : Text) (id : ℕ) (found : Option Job) (w v : World)
      → IsCalm w
      → uuid_of raw ≡ some id
      → get_job id w ≡ (ok found, v)
      → (u : World) × (process executor raw w ≡ (ok tt, u)) × IsFinished raw id u
  unfolding process
  process_settles raw id found w v calm parsed read_job =
      let (same, reads) = get_job_lem id w v found calm read_job in
      let (a, u, ran, done) =
        returns_of (handle executor raw id found w) (handle-finishes raw id found w calm reads) in
      (
        u,
        ap (λ p. dispatch executor raw p w) parsed
            ∙ dispatch_found executor raw id found w v read_job
            ∙ ap (handle executor raw id found) same
            ∙ ran,
        done,
      )
