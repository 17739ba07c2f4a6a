-- ===== src/Processor/Outcome.antt =====
-- `process` from the text of an id to the report of the outcome.
use krmed_cloud_services.Base.{
  Text, ℕ, ◌≡◌, refl, ap, subst, ◌∙◌, Option-cases, inl, inr, true, false, some,
}
use krmed_cloud_services.Effects.{Result, ok, continue, ◌>>=◌}
use krmed_cloud_services.Schema.{Job, running, is_terminal}
use krmed_cloud_services.Schema.Uuid.{uuid_of}
use krmed_cloud_services.World.{World, JobRow}
use krmed_cloud_services.World.Calm.{IsCalm}
use krmed_cloud_services.Repository.{find_row, get_job}
use krmed_cloud_services.Repository.Rows.{find_row_id, Matches, get_job_lem}
use krmed_cloud_services.Executor.{Executor, ExecutionResult}
use krmed_cloud_services.Processor.{execute, handle, dispatch, process}
use krmed_cloud_services.Processor.Reports.{announced, work, is_over, Reported, execute-Reported}

job_id :
    (id : ℕ) (job : Job) (w : World) → IsCalm w → get_job id w ≡ (ok (some job), w) → job.id ≡ id
job_id id job w calm reads = elim (Option-cases (find_row id w.jobs)) [
  | inl gone ↦
      absurd (subst (λ o. Matches o (some job)) gone (get_job_lem id w w (some job) calm reads).1)
  | inr (row, there) ↦
      (subst (λ o. Matches o (some job)) there (get_job_lem id w w (some job) calm reads).1).0
      ∙ find_row_id id w.jobs there
]

process_executes :
    (executor : Executor) (raw : Text) (id : ℕ) (job : Job) (w : World)
    → uuid_of raw ≡ some id
    → get_job id w ≡ (ok (some job), w)
    → is_terminal job.status ≡ false
    → process executor raw w ≡ execute executor raw id job w
unfolding process dispatch handle ◌>>=◌
process_executes executor raw id job w parsed reads active =
    ap (λ o. dispatch executor raw o w) parsed
    ∙ ap (λ x. continue x (handle executor raw id)) reads
    ∙ rw active refl

-- Without faults at the start, for a text of an id whose job can be read and is not terminal: if the
-- gates and the executor, run once the job is announced, return a result or raise, and leave the job
-- running and no faults to come, then `process` returns. After a result the row is completed and has
-- its checkpoint path; after an exception, of a gate or of the executor, the row is failed and has the
-- message made of it; the status hash says the same with a time to live, and no copy of the text
-- is in flight.
pub process_reports :
    (executor : Executor) (raw : Text) (id : ℕ) (job : Job) (row : JobRow)
    (r : Result ExecutionResult) (w v : World)
    → IsCalm w
    → uuid_of raw ≡ some id
    → get_job id w ≡ (ok (some job), w)
    → is_terminal job.status ≡ false
    → work executor job (announced id w) ≡ (r, v)
    → is_over r ≡ true
    → IsCalm v
    → find_row id v.jobs ≡ some row
    → row.status ≡ running
    → (u : World) × (process executor raw w ≡ (ok tt, u)) × Reported raw id row r v u
process_reports executor raw id job row r w v calm parsed reads active works over later found
      going =
    let at_job =
      subst
        (λ n.
          work executor job (announced n w) ≡ (r, v)
          → find_row n v.jobs ≡ some row
          → (u : World) × (execute executor raw n job w ≡ (ok tt, u)) × Reported raw n row r v u)
        (job_id id job w calm reads)
        (λ h there. execute-Reported executor raw job row w v calm later there going r over h) in
    let (u, runs, reported) = at_job works found in
    (u, process_executes executor raw id job w parsed reads active ∙ runs, reported)
