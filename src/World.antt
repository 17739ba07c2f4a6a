-- ===== src/World.antt =====
-- The services the worker talks to (Postgres, Redis), the clock, and what may happen between and
-- during its calls: time passes, others act, a call fails, its reply is lost, the process dies.
pub mod Calm
use krmed_cloud_services.Base.{
  Text, ℕ, ◌+◌, Bool, false, ◌&&◌, ◌||◌, Option, none, some, List, [], ◌∷◌, ◌++◌, ◌==◌,
  if◌then◌else◌, remove_all,
}
use krmed_cloud_services.Effects.{Exn, Result, ok, raised, killed, Exec, service_error}
use krmed_cloud_services.Schema.{
  JobStatus, queued, running, completed, failed, cancelled, status_eq, Json, Message,
}
use krmed_cloud_services.Schema.Uuid.{uuid_str}

-- A row of the table `jobs`.
pub record JobRow : Type 0 where
  pub id : ℕ
  pub status : JobStatus
  pub base_model : Text
  pub dataset_path : Text
  pub hyperparameters : List (Text × Json)
  pub checkpoint_path : Option Text
  pub error_message : Option Message
  pub created_at : ℕ
  pub updated_at : ℕ

-- A row of the table `models`, with the columns that the worker reads.
pub record ModelRow : Type 0 where
  pub hf_repo_id : Text
  pub revision : Text
  pub param_count : Option ℕ
  pub vram_hint : Option Text
  pub ready : Bool
  pub is_default : Bool

-- The hash `jobs:status:{id}`, with its time to live when one is set.
pub record StatusHash : Type 0 where
  pub status : Text
  pub updated_at : ℕ
  pub ttl : Option ℕ

-- What a worker's update does to a job: it starts, lives, completes or fails, or is given back.
pub data Step : Type 0 where
  starts lives gives_back : Step
  completes : Text → Step
  fails : Message → Step

-- What others do in between. The backend inserts a job, pushes its id, cancels it, takes its id off the
-- queue. Another worker claims the last id, acks or requeues one, moves a job on, publishes a hash.
pub data Action : Type 0 where
  insert : JobRow → Action
  enqueue cancel dequeue : ℕ → Action
  takes_last : Action
  acks requeues : Text → Action
  moves_on : ℕ → Step → Action
  publishes : Text → StatusHash → Action

pub data Fault : Type 0 where
  up refused reply_lost killed_before killed_after : Fault

-- What goes with one call of a service.
pub record Event : Type 0 where
  pub elapsed : ℕ
  pub others : List Action
  pub fault : Fault

-- `schedule` holds an event for each call to come; past its end nothing happens between calls.
pub record World : Type 0 where
  pub jobs : List JobRow
  pub models : List ModelRow
  pub queue : List Text
  pub processing : List Text
  pub hashes : List (Text × StatusHash)
  pub now : ℕ
  pub schedule : List Event

abbrev pub M : Type 0 → Type 0
M A = Exec World A

-- `UPDATE jobs SET … WHERE id = … AND status = …`
unfoldable pub update_jobs : ℕ → JobStatus → (JobRow → JobRow) → List JobRow → List JobRow
update_jobs id expected f [] = []
update_jobs id expected f (r ∷ rs) =
    (if r.id == id && status_eq r.status expected then f r else r) ∷ update_jobs id expected f rs

unfoldable pub has_job : ℕ → List JobRow → Bool
has_job id [] = false
has_job id (r ∷ rs) = r.id == id || has_job id rs

abbrev pub set_cancelled : ℕ → JobRow → JobRow
set_cancelled now r = record r { status = cancelled; updated_at = now }

-- A row as the backend inserts it: queued, with no result yet.
abbrev pub created : JobRow → JobRow
created r = record r { status = queued; checkpoint_path = none; error_message = none }

-- The list without its right end, and that end.
unfoldable pub unsnoc : List Text → Option (List Text × Text)
unsnoc [] = none
unsnoc (x ∷ xs) = elim (unsnoc xs) [
  | none ↦ some ([], x)
  | some (front, last) ↦ some (x ∷ front, last)
]

abbrev pub needs_status : Step → JobStatus
needs_status starts = queued
needs_status _ = running

abbrev pub moved : Step → ℕ → JobRow → JobRow
moved starts now r = record r { status = running; updated_at = now }
moved lives now r = record r { updated_at = now }
moved gives_back now r = record r { status = queued; updated_at = now }
moved (completes path) now r = record r {
  status = completed;
  checkpoint_path = some path;
  updated_at = now;
}
moved (fails message) now r = record r {
  status = failed;
  error_message = some message;
  updated_at = now;
}

abbrev pub taken : Option (List Text × Text) → World → World
taken none w = w
taken (some (front, last)) w = record w { queue = front; processing = last ∷ w.processing }

-- The primary key refuses a second row with one id. Only an active job can be cancelled.
unfoldable pub act : Action → World → World
unfolding has_job update_jobs remove_all unsnoc
act (insert r) w = record w {
  jobs = if has_job r.id w.jobs then w.jobs else w.jobs ++ created r ∷ [];
}
act (enqueue id) w = record w { queue = uuid_str id ∷ w.queue }
act (cancel id) w =
    let once = update_jobs id queued (set_cancelled w.now) w.jobs in
    record w { jobs = update_jobs id running (set_cancelled w.now) once }
act (dequeue id) w = record w { queue = remove_all (uuid_str id) w.queue }
act takes_last w = taken (unsnoc w.queue) w
act (acks t) w = record w { processing = remove_all t w.processing }
act (requeues t) w = record w { processing = remove_all t w.processing; queue = t ∷ w.queue }
act (moves_on id step) w = record w {
  jobs = update_jobs id (needs_status step) (moved step w.now) w.jobs;
}
act (publishes key hash) w = record w { hashes = (key, hash) ∷ w.hashes }

unfoldable pub act_all : List Action → World → World
act_all [] w = w
act_all (a ∷ rest) w = act_all rest (act a w)

unfoldable pub happen : Event → List Event → World → World
unfolding act_all
happen e rest w = act_all e.others (record w { now = w.now + e.elapsed; schedule = rest })

abbrev pub respond : {A : Type 0} → Fault → (World → A × World) → World → Result A × World
respond up op w = (ok (op w).0, (op w).1)
respond refused op w = (raised service_error, w)
respond reply_lost op w = (raised service_error, (op w).1)
respond killed_before op w = (killed, w)
respond killed_after op w = (killed, (op w).1)

abbrev pub serve : {A : Type 0} → List Event → (World → A × World) → World → Result A × World
serve [] op w = (ok (op w).0, (op w).1)
serve (e ∷ rest) op w = respond e.fault op (happen e rest w)

-- One call of a service: one transaction of Postgres, or one command or pipeline of Redis.
unfoldable pub service : {A : Type 0} → (World → A × World) → M A
unfolding happen
service op w = serve w.schedule op w

abbrev pub read : {A : Type 0} → (World → A) → World → A × World
read f w = (f w, w)

abbrev pub write : (World → World) → World → Unit {0} × World
write f w = (tt, f w)
