-- ===== src/Processor/Poison.antt =====
-- A job whose row cannot be read: `get_job` stands outside the `try` of `process`.
use krmed_cloud_services.Base.{Text, ℕ, ◌≡◌, ap, ◌∙◌, some}
use krmed_cloud_services.Effects.{Exn, raised, pure, ◌>>=◌, continue}
use krmed_cloud_services.Schema.Uuid.{uuid_of}
use krmed_cloud_services.World.{World, JobRow, read}
use krmed_cloud_services.World.Calm.{IsCalm, service_calm}
use krmed_cloud_services.Repository.{find_row, get_job, to_job, row_to_job}
use krmed_cloud_services.Executor.{Executor}
use krmed_cloud_services.Processor.{dispatch, process, handle}

get_job_raises :
    (id : ℕ) (row : JobRow) (e : Exn) (w : World)
    → IsCalm w
    → find_row id w.jobs ≡ some row
    → row_to_job row w ≡ (raised e, w)
    → get_job id w ≡ (raised e, w)
unfolding get_job to_job ◌>>=◌
get_job_raises id row e w calm found broken =
    ap (λ r. continue r to_job) (service_calm (read (λ u. find_row id u.jobs)) w calm)
    ∙ (ap (λ r. to_job r w) found ∙ ap (λ r. continue r (λ job. pure (some job))) broken)

dispatch_raises :
    (executor : Executor) (raw : Text) (id : ℕ) (e : Exn) (w : World)
    → get_job id w ≡ (raised e, w)
    → dispatch executor raw (some id) w ≡ (raised e, w)
unfolding dispatch ◌>>=◌
dispatch_raises executor raw id e w h = ap (λ r. continue r (handle executor raw id)) h

-- Without faults, when reading the row of a job raises an exception, `process` of a text of its id
-- raises that exception and changes nothing: the job is not marked as failed, and its id stays where
-- it was on the in-flight list.
pub process_unreadable :
    (executor : Executor) (raw : Text) (id : ℕ) (row : JobRow) (e : Exn) (w : World)
    → IsCalm w
    → uuid_of raw ≡ some id
    → find_row id w.jobs ≡ some row
    → row_to_job row w ≡ (raised e, w)
    → process executor raw w ≡ (raised e, w)
unfolding process
process_unreadable executor raw id row e w calm parsed found broken =
    ap (λ p. dispatch executor raw p w) parsed
    ∙ dispatch_raises executor raw id e w (get_job_raises id row e w calm found broken)
