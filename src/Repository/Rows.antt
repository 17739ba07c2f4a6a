-- ===== src/Repository/Rows.antt =====
-- Reading a row after an update, and reading a job.
use krmed_cloud_services.Base.{
  ℕ, ◌≡◌, refl, ap, sym, ◌∙◌, Option, none, some, List, [], ◌∷◌, ◌==◌, if◌then◌else◌, Bool-cases,
  inl, inr, arith,
}
use krmed_cloud_services.Effects.{
  Result, ok, raised, killed, pure, raise, or_raise, ◌>>=◌, continue,
}
use krmed_cloud_services.Schema.{JobStatus, status_eq, Job}
use krmed_cloud_services.World.{World, JobRow, update_jobs, read}
use krmed_cloud_services.World.Calm.{IsCalm, service_calm}
use krmed_cloud_services.Repository.{get_job, find_row, row_to_job, to_job}

-- What an update does to the row that it is about.
abbrev pub updated : JobStatus → (JobRow → JobRow) → Option JobRow → Option JobRow
updated expected f none = none
updated expected f (some r) = some (if status_eq r.status expected then f r else r)

pub find_row-update_jobs :
    (id : ℕ) (expected : JobStatus) (f : JobRow → JobRow) (rows : List JobRow)
    → ((r : JobRow) → (f r).id ≡ r.id)
    → find_row id (update_jobs id expected f rows) ≡ updated expected f (find_row id rows)
unfolding update_jobs
find_row-update_jobs id expected f [] keeps = refl
find_row-update_jobs id expected f (r ∷ rows) keeps =
    ground (arith, keeps r, find_row-update_jobs id expected f rows keeps)

pub find_row_id : (id : ℕ) (rows : List JobRow) {r : JobRow} → find_row id rows ≡ some r → r.id ≡ id
find_row_id id [] h = cc
find_row_id id (x ∷ rows) {r} h = elim (Bool-cases (x.id == id)) [
  | inl hit ↦ ground arith
  | inr miss ↦ find_row_id id rows {r = r} (ground arith)
]

-- A job has the id and the status of its row, and reading it changes nothing.
pub row_to_job_lem :
    {S : Type 0} (row : JobRow) (s t : S) {job : Job}
    → row_to_job row s ≡ (ok job, t)
    → (t ≡ s)
      × (job.id ≡ row.id)
      × (job.status ≡ row.status)
      × (job.base_model ≡ row.base_model)
      × (job.dataset_path ≡ row.dataset_path)
unfolding row_to_job ◌>>=◌ pure or_raise raise
row_to_job_lem row s t h = ground arith

-- What is read is the row: none for none, and else the job with its id and status.
abbrev pub Matches : Option JobRow → Option Job → Type 0
Matches none none = Unit
Matches (some row) (some job) = (job.id ≡ row.id) × (job.status ≡ row.status)
Matches _ _ = ⊥

wrapped :
    {S : Type 0} (row : JobRow) (s t : S) (found : Option Job) (r : Result Job × S)
    → row_to_job row s ≡ r
    → continue r (λ job. pure (some job)) ≡ (ok found, t)
    → (t ≡ s) × Matches (some row) found
unfolding pure
wrapped row s t none (ok job, u) e h = cc
wrapped row s t (some j) (ok job, u) e h =
    let p = row_to_job_lem row s u {job = job} e in ground arith
wrapped row s t found (raised x, u) e h = cc
wrapped row s t found (killed, u) e h = cc

to_job_lem :
    {S : Type 0} (row : Option JobRow) (s t : S) (found : Option Job)
    → to_job row s ≡ (ok found, t)
    → (t ≡ s) × Matches row found
unfolding to_job ◌>>=◌
to_job_lem none s t none h = unfold pure in ground arith
to_job_lem none s t (some job) h = unfold pure in ground arith
to_job_lem (some row) s t found h = wrapped row s t found (row_to_job row s) refl h

-- Without faults `get_job` reads the row and changes nothing.
pub get_job_lem :
    (id : ℕ) (w v : World) (found : Option Job)
    → IsCalm w
    → get_job id w ≡ (ok found, v)
    → (v ≡ w) × Matches (find_row id w.jobs) found
unfolding get_job ◌>>=◌
get_job_lem id w v found calm h =
    to_job_lem (find_row id w.jobs) w v found
      (sym (ap (λ r. continue r to_job) (service_calm (read (λ u. find_row id u.jobs)) w calm)) ∙ h)
