-- ===== src/Repository/Lifecycle.antt =====
-- The life of a job as a state machine on its status, apart from the code: `validTransitions` of
-- ml-platform/backend/internal/db/jobs.go, and the reset of the worker. One call, or one action of
-- others, takes a row along it by one change at most.
use krmed_cloud_services.Base.{
  ◌≡◌, ◌⊎◌, inl, inr, refl, sym, true, ◌&&◌, ℕ, List, [], ◌∷◌, Bool-cases, subst, ◌==◌, arith,
  Option, none, some, Text,
}
use krmed_cloud_services.Schema.{
  JobStatus, queued, running, completed, failed, cancelled, status_eq, status_eq→eq,
}
use krmed_cloud_services.World.{
  World, JobRow, Action, insert, enqueue, cancel, dequeue, takes_last, acks, requeues, moves_on,
  publishes, Step, starts, lives, gives_back, completes, fails, moved, needs_status, update_jobs,
  set_cancelled, has_job, created, act, taken, unsnoc,
}
use krmed_cloud_services.Repository.Table.{OnJobs, Rowwise}
use krmed_cloud_services.Repository.Rowwise.{Rowwise-refl, Rowwise-append, Rowwise-update_jobs}

-- One change of status.
pub data StatusMove : JobStatus → JobStatus → Type 0 where
  begins : StatusMove queued running
  withdrawn : StatusMove queued cancelled
  succeeds : StatusMove running completed
  breaks : StatusMove running failed
  stopped : StatusMove running cancelled
  reset : StatusMove running queued

-- The same job, and its status is the same or one change further on.
pub record OneMove (x y : JobRow) : Type 0 where
  pub same_id : y.id ≡ x.id
  pub move : (y.status ≡ x.status) ⊎ StatusMove x.status y.status

-- Every row of the first world is in the second, at most one change further on.
abbrev pub Moves : World → World → Type 0
Moves = OnJobs (Rowwise OneMove)

OneMove-refl : (r : JobRow) → OneMove r r
OneMove-refl r = record { same_id = refl; move = inl refl }

from_status :
    {s : JobStatus} (x y : JobRow)
    → y.id ≡ x.id
    → x.status ≡ s
    → StatusMove s y.status
    → OneMove x y
from_status x y same e m = record {
  same_id = same;
  move = inr (subst (λ a. StatusMove a y.status) (sym e) m);
}

moved-OneMove :
    (step : Step) (now : ℕ) (r : JobRow)
    → r.status ≡ needs_status step
    → OneMove r (moved step now r)
moved-OneMove starts now r e = from_status r _ refl e begins
moved-OneMove lives now r e = record { same_id = refl; move = inl refl }
moved-OneMove gives_back now r e = from_status r _ refl e reset
moved-OneMove (completes path) now r e = from_status r _ refl e succeeds
moved-OneMove (fails message) now r e = from_status r _ refl e breaks

pub moving-Moves :
    (id now : ℕ) (step : Step) (rs : List JobRow)
    → Rowwise OneMove rs (update_jobs id (needs_status step) (moved step now) rs)
moving-Moves id now step =
    Rowwise-update_jobs OneMove OneMove-refl id (needs_status step) (moved step now)
      (moved-OneMove step now)

-- The two updates of a cancellation never both change a row.
cancel_rows :
    (id now : ℕ) (rs : List JobRow)
    → Rowwise OneMove rs
        (update_jobs id running (set_cancelled now) (update_jobs id queued (set_cancelled now) rs))
unfolding update_jobs status_eq
cancel_rows id now [] = tt
cancel_rows id now (r ∷ rs) =
    let rest = cancel_rows id now rs in
    elim (Bool-cases (r.id == id && status_eq r.status queued)) [
      | inl hit ↦
          let e : r.status ≡ queued = status_eq→eq r.status queued (ground arith) in
          let h : (r.id == id) ≡ true = ground arith in
          rw hit (rw h (from_status r _ refl e withdrawn, rest))
      | inr miss ↦ rw miss (elim (Bool-cases (r.id == id && status_eq r.status running)) [
        | inl hit ↦
            let e : r.status ≡ running = status_eq→eq r.status running (ground arith) in
            rw hit (from_status r _ refl e stopped, rest)
        | inr same ↦ rw same (OneMove-refl r, rest)
      ])
    ]

taken-Moves : (o : Option (List Text × Text)) (w : World) → Moves w (taken o w)
taken-Moves none w = Rowwise-refl OneMove OneMove-refl w.jobs
taken-Moves (some (front, last)) w = Rowwise-refl OneMove OneMove-refl w.jobs

-- An action of others.
pub act-Moves : (a : Action) (w : World) → Moves w (act a w)
unfolding act
act-Moves (insert r) w = elim (Bool-cases (has_job r.id w.jobs)) [
  | inl old ↦ rw old (Rowwise-refl OneMove OneMove-refl w.jobs)
  | inr new ↦ rw new (Rowwise-append OneMove OneMove-refl w.jobs (created r ∷ []))
]
act-Moves (enqueue id) w = Rowwise-refl OneMove OneMove-refl w.jobs
act-Moves (cancel id) w = cancel_rows id w.now w.jobs
act-Moves (dequeue id) w = Rowwise-refl OneMove OneMove-refl w.jobs
act-Moves takes_last w = taken-Moves (unsnoc w.queue) w
act-Moves (acks t) w = Rowwise-refl OneMove OneMove-refl w.jobs
act-Moves (requeues t) w = Rowwise-refl OneMove OneMove-refl w.jobs
act-Moves (moves_on id step) w = moving-Moves id w.now step w.jobs
act-Moves (publishes key hash) w = Rowwise-refl OneMove OneMove-refl w.jobs

pub same_jobs-Moves : (w u : World) → u.jobs ≡ w.jobs → Moves w u
same_jobs-Moves w u same =
    subst (λ l. Rowwise OneMove w.jobs l) (sym same) (Rowwise-refl OneMove OneMove-refl w.jobs)
