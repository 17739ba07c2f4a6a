-- ===== src/Repository/Results.antt =====
-- What holds of the table of jobs at all times: the ids differ, a job has a checkpoint when it is
-- completed and an error when it has failed, and neither in any other status.
use krmed_cloud_services.Base.{
  ◌≡◌, refl, ap, ◌∙◌, Bool, true, false, ◌&&◌, ◌||◌, ℕ, Option, none, some, List, [], ◌∷◌, ◌++◌,
  ◌==◌, arith, Bool-cases, inl, inr,
}
use krmed_cloud_services.Schema.{JobStatus, completed, failed, status_eq, is_terminal, status_eq→eq}
use krmed_cloud_services.World.{
  JobRow, Step, starts, lives, gives_back, completes, fails, moved, needs_status, update_jobs,
  has_job, created, set_cancelled,
}
use krmed_cloud_services.Repository.Table.{TableLaw}

abbrev is_given : {A : Type 0} → Option A → Bool
is_given none = false
is_given (some a) = true

pub record HasResult (r : JobRow) : Type 0 where
  pub checkpoint : is_given r.checkpoint_path ≡ status_eq r.status completed
  pub error : is_given r.error_message ≡ status_eq r.status failed

abbrev pub WellKept : List JobRow → Type 0
WellKept [] = Unit
WellKept (r ∷ rs) = (has_job r.id rs ≡ false) × HasResult r × WellKept rs

abbrev pub StaysKept : List JobRow → List JobRow → Type 0
StaysKept xs ys = WellKept xs → WellKept ys

moved-id : (step : Step) (now : ℕ) (r : JobRow) → (moved step now r).id ≡ r.id
moved-id starts now r = refl
moved-id lives now r = refl
moved-id gives_back now r = refl
moved-id (completes path) now r = refl
moved-id (fails message) now r = refl

-- A row that is not in a terminal status has no result.
moved-HasResult :
    (step : Step) (now : ℕ) (r : JobRow)
    → r.status ≡ needs_status step
    → HasResult r
    → HasResult (moved step now r)
unfolding status_eq
moved-HasResult starts now r e h = record {
  checkpoint = h.checkpoint ∙ ap (λ s. status_eq s completed) e;
  error = h.error ∙ ap (λ s. status_eq s failed) e;
}
moved-HasResult lives now r e h = record { checkpoint = h.checkpoint; error = h.error }
moved-HasResult gives_back now r e h = record {
  checkpoint = h.checkpoint ∙ ap (λ s. status_eq s completed) e;
  error = h.error ∙ ap (λ s. status_eq s failed) e;
}
moved-HasResult (completes path) now r e h = record {
  checkpoint = refl;
  error = h.error ∙ ap (λ s. status_eq s failed) e;
}
moved-HasResult (fails message) now r e h = record {
  checkpoint = h.checkpoint ∙ ap (λ s. status_eq s completed) e;
  error = refl;
}

cancelled-HasResult :
    (now : ℕ) (r : JobRow)
    → is_terminal r.status ≡ false
    → HasResult r
    → HasResult (set_cancelled now r)
unfolding status_eq is_terminal
cancelled-HasResult now r active h = record {
  checkpoint = h.checkpoint ∙ ground arith;
  error = h.error ∙ ground arith;
}

module _ (id : ℕ) (expected : JobStatus) (f : JobRow → JobRow)
    (keeps : (r : JobRow) → (f r).id ≡ r.id) where
  has_job-update_jobs :
      (i : ℕ) (rs : List JobRow) → has_job i (update_jobs id expected f rs) ≡ has_job i rs
  unfolding has_job update_jobs
  has_job-update_jobs i [] = refl
  has_job-update_jobs i (r ∷ rs) = ground (arith, keeps r, has_job-update_jobs i rs)

  update_jobs-StaysKept :
      ((r : JobRow) → r.status ≡ expected → HasResult r → HasResult (f r))
      → (rs : List JobRow) → StaysKept rs (update_jobs id expected f rs)
  unfolding update_jobs
  update_jobs-StaysKept change [] h = tt
  update_jobs-StaysKept change (r ∷ rs) (fresh, result, rest) =
      let more = update_jobs-StaysKept change rs rest in
      elim (Bool-cases (r.id == id && status_eq r.status expected)) [
        | inl hit ↦ rw hit (
          ap (λ i. has_job i (update_jobs id expected f rs)) (keeps r)
              ∙ has_job-update_jobs r.id rs
              ∙ fresh,
          change r (status_eq→eq r.status expected (ground arith)) result,
          more,
        )
        | inr miss ↦ rw miss (has_job-update_jobs r.id rs ∙ fresh, result, more)
      ]

has_job-append :
    (i : ℕ) (rs : List JobRow) (r : JobRow) → has_job i (rs ++ r ∷ []) ≡ (has_job i rs || r.id == i)
unfolding has_job
has_job-append i [] r = ground arith
has_job-append i (x ∷ rs) r = ground (arith, has_job-append i rs r)

append-StaysKept :
    (r : JobRow) (rs : List JobRow) → has_job r.id rs ≡ false → StaysKept rs (rs ++ created r ∷ [])
unfolding has_job
append-StaysKept r [] new h =
    (refl, record { checkpoint = unfold status_eq in refl; error = unfold status_eq in refl }, tt)
append-StaysKept r (x ∷ rs) new (fresh, result, rest) = (
  has_job-append x.id rs (created r) ∙ ground arith,
  result,
  append-StaysKept r rs (ground arith) rest,
)

pub StaysKept-TableLaw : TableLaw StaysKept
StaysKept-TableLaw = record {
  reflexive = λ rs h. h;
  transitive = λ xs ys zs f g h. g (f h);
  moving = λ id now step.
      update_jobs-StaysKept id (needs_status step) (moved step now) (moved-id step now)
        (moved-HasResult step now);
  cancelling = λ id now expected active.
      update_jobs-StaysKept id expected (set_cancelled now) (λ r. refl)
        (λ r e. cancelled-HasResult now r (ap is_terminal e ∙ active));
  inserting = append-StaysKept;
}
