-- ===== src/Repository/Table.antt =====
-- Relations on the table of jobs. One that allows each conditional update of a job and each insert
-- allows everything that the worker, the backend and other workers do to the table.
use krmed_cloud_services.Base.{
  Option, none, some, Text, ℕ, ◌≡◌, refl, false, List, [], ◌∷◌, ◌++◌, Bool-cases, inl, inr,
}
use krmed_cloud_services.Effects.Rules.{Keeps, Preorder}
use krmed_cloud_services.Schema.{JobStatus, queued, running, is_terminal}
use krmed_cloud_services.World.{
  World, JobRow, Action, insert, enqueue, cancel, dequeue, takes_last, acks, requeues, moves_on,
  publishes, Step, moved, needs_status, taken, unsnoc, act, update_jobs, has_job, created,
  set_cancelled, service, write,
}
use krmed_cloud_services.World.Calm.{AllowsOutside, Keeps-service}
use krmed_cloud_services.Repository.{update}

pub record TableLaw (R : List JobRow → List JobRow → Type 0) : Type 0 where
  pub reflexive : (rs : List JobRow) → R rs rs
  pub transitive : (xs ys zs : List JobRow) → R xs ys → R ys zs → R xs zs
  pub moving :
      (id now : ℕ) (step : Step) (rs : List JobRow)
      → R rs (update_jobs id (needs_status step) (moved step now) rs)
  pub cancelling :
      (id now : ℕ) (expected : JobStatus)
      → is_terminal expected ≡ false
      → (rs : List JobRow) → R rs (update_jobs id expected (set_cancelled now) rs)
  pub inserting :
      (r : JobRow) (rs : List JobRow) → has_job r.id rs ≡ false → R rs (rs ++ created r ∷ [])

-- The relation of two worlds by their tables.
abbrev pub OnJobs : (List JobRow → List JobRow → Type 0) → World → World → Type 0
OnJobs R w v = R w.jobs v.jobs

module _ {R : List JobRow → List JobRow → Type 0} (law : TableLaw R) where
  pub OnJobs-Preorder : Preorder (OnJobs R)
  OnJobs-Preorder = record {
    reflexive = λ w. law.reflexive w.jobs;
    transitive = λ u v w. law.transitive u.jobs v.jobs w.jobs;
  }

  taken-OnJobs : (o : Option (List Text × Text)) (w : World) → OnJobs R w (taken o w)
  taken-OnJobs none w = law.reflexive w.jobs
  taken-OnJobs (some (front, last)) w = law.reflexive w.jobs

  act-OnJobs : (a : Action) (w : World) → OnJobs R w (act a w)
  unfolding act is_terminal
  act-OnJobs (insert r) w = elim (Bool-cases (has_job r.id w.jobs)) [
    | inl old ↦ rw old (law.reflexive w.jobs)
    | inr new ↦ rw new (law.inserting r w.jobs new)
  ]
  act-OnJobs (enqueue id) w = law.reflexive w.jobs
  act-OnJobs (cancel id) w =
      law.transitive w.jobs (update_jobs id queued (set_cancelled w.now) w.jobs) _
        (law.cancelling id w.now queued refl w.jobs) (law.cancelling id w.now running refl _)
  act-OnJobs (dequeue id) w = law.reflexive w.jobs
  act-OnJobs takes_last w = taken-OnJobs (unsnoc w.queue) w
  act-OnJobs (acks t) w = law.reflexive w.jobs
  act-OnJobs (requeues t) w = law.reflexive w.jobs
  act-OnJobs (moves_on id step) w = law.moving id w.now step w.jobs
  act-OnJobs (publishes key hash) w = law.reflexive w.jobs

  pub outside-OnJobs : AllowsOutside (OnJobs R)
  outside-OnJobs = record {
    order = OnJobs-Preorder;
    passing = λ w n rest. law.reflexive w.jobs;
    acting = act-OnJobs;
  }

  -- A call that leaves the table alone.
  pub same_jobs-OnJobs :
      {A : Type 0} (op : World → A × World)
      → ((w : World) → (op w).1.jobs ≡ w.jobs)
      → Keeps (OnJobs R) (service op)
  same_jobs-OnJobs op same =
      Keeps-service outside-OnJobs op (λ w. rw (same w) (law.reflexive w.jobs))

  pub moving-OnJobs :
      (id : ℕ) (step : Step)
      → Keeps (OnJobs R) (service (write (update id (needs_status step) (moved step))))
  unfolding update
  moving-OnJobs id step =
      Keeps-service outside-OnJobs (write (update id (needs_status step) (moved step)))
        (λ w. law.moving id w.now step w.jobs)

-- A relation on rows, for the rows of two tables in their order; the second table may have more.
abbrev pub Rowwise : (JobRow → JobRow → Type 0) → List JobRow → List JobRow → Type 0
Rowwise R [] ys = Unit
Rowwise R (x ∷ xs) [] = ⊥
Rowwise R (x ∷ xs) (y ∷ ys) = R x y × Rowwise R xs ys
