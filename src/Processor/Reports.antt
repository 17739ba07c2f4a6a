-- ===== src/Processor/Reports.antt =====
-- What a processed job leaves behind, by the outcome of its gates and its executor.
use krmed_cloud_services.Base.{
  Text, ℕ, ◌≡◌, refl, ap, sym, ◌∙◌, Bool, true, false, some, remove_all, text_eq_refl,
}
use krmed_cloud_services.Effects.{Exn, Result, ok, raised, killed, Exec, continue, ◌>>=◌}
use krmed_cloud_services.Effects.Runs.{
  Runs, Raises, Runs-bind, Runs-then, Runs-then-Raises, Raises-bind, Runs-attempt, Raises-attempt,
}
use krmed_cloud_services.Schema.{
  Job, JobStatus, queued, running, completed, failed, status_eq, status_value, Message,
}
use krmed_cloud_services.Schema.Uuid.{uuid_str}
use krmed_cloud_services.World.{World, M, JobRow}
use krmed_cloud_services.World.Calm.{IsCalm}
use krmed_cloud_services.Queue.{drop_processing}
use krmed_cloud_services.Status.{put_status, hash_of, hash_of-put_status, terminal_ttl_seconds}
use krmed_cloud_services.Repository.{find_row, update, set_running, set_completed, set_failed}
use krmed_cloud_services.Repository.Rows.{find_row-update_jobs}
use krmed_cloud_services.Executor.{Executor, ExecutionResult}
use krmed_cloud_services.Calls.{
  mark_running-Runs, mark_completed-Runs, mark_failed-Runs, publish-Runs, ack-Runs, update-IsCalm,
  put_status-IsCalm,
}
use krmed_cloud_services.Processor.{beat, preflight, finish, run, fail, message_of, execute}

-- The world once `_run` has announced the job.
abbrev pub announced : ℕ → World → World
announced id w =
    put_status (uuid_str id) (status_value running) false (update id queued set_running w)

-- The gates and the executor, which follow.
abbrev pub work : Executor → Job → M ExecutionResult
work executor job = preflight job >>= λ model. executor job model (beat job.id)

-- What the outcome makes of the row, and its status.
abbrev pub settled_row : Result ExecutionResult → ℕ → JobRow → JobRow
settled_row (ok result) now row = set_completed result.checkpoint_path now row
settled_row (raised e) now row = set_failed (message_of e) now row
settled_row killed now row = row

abbrev pub settled_status : Result ExecutionResult → JobStatus
settled_status (ok result) = completed
settled_status (raised e) = failed
settled_status killed = running

abbrev pub is_over : {A : Type 0} → Result A → Bool
is_over killed = false
is_over _ = true

-- The row and the hash say how the job ended, and the text is in flight no more.
pub record Reported (raw : Text) (id : ℕ) (row : JobRow) (r : Result ExecutionResult) (v u : World)
    : Type 0 where
  pub row_is : find_row id u.jobs ≡ some (settled_row r v.now row)
  pub hash_is :
      hash_of (uuid_str id) u
      ≡ some (record {
        status = status_value (settled_status r);
        updated_at = v.now;
        ttl = some terminal_ttl_seconds;
      })
  pub acked : u.processing ≡ remove_all raw v.processing

continue_assoc :
    {S A B C : Type 0} (r : Result A × S) (f : A → Exec S B) (g : B → Exec S C)
    → continue (continue r f) g ≡ continue r (λ a. f a >>= g)
unfolding ◌>>=◌
continue_assoc (ok a, s) f g = refl
continue_assoc (raised e, s) f g = refl
continue_assoc (killed, s) f g = refl

bind_assoc :
    {S A B C : Type 0} (m : Exec S A) (f : A → Exec S B) (g : B → Exec S C) (s : S)
    → ((m >>= f) >>= g) s ≡ (m >>= λ a. f a >>= g) s
unfolding ◌>>=◌
bind_assoc m f g s = continue_assoc (m s) f g

module _ (raw : Text) (id : ℕ) (row : JobRow) (v : World) (calm : IsCalm v)
    (found : find_row id v.jobs ≡ some row) (going : row.status ≡ running) where
  row_done :
      (f : ℕ → JobRow → JobRow)
      → ((n : ℕ) (x : JobRow) → (f n x).id ≡ x.id)
      → find_row id (update id running f v).jobs ≡ some (f v.now row)
  unfolding update status_eq
  row_done f keeps =
      find_row-update_jobs id running (f v.now) v.jobs (keeps v.now) ∙ rw (found, going) refl

  -- Writing the end of the job, whichever it is, publishing it and acking.
  ended :
      (r : Result ExecutionResult) (f : ℕ → JobRow → JobRow)
      → ((n : ℕ) (x : JobRow) → (f n x).id ≡ x.id)
      → f v.now row ≡ settled_row r v.now row
      → Reported raw id row r v (
          drop_processing raw (
            put_status
              (uuid_str id)
              (status_value (settled_status r))
              true
              (update id running f v)))
  ended r f keeps same = record {
    row_is = unfold drop_processing put_status in (row_done f keeps ∙ ap some same);
    hash_is =
        unfold drop_processing in
        hash_of-put_status (uuid_str id) (uuid_str id) (status_value (settled_status r)) true
          (update id running f v)
        ∙ (unfold update in rw (text_eq_refl (uuid_str id)) refl);
    acked = unfold drop_processing put_status update in refl;
  }

  finish-Runs :
      (path : Text)
      → Runs (finish id path) v tt (
          put_status
            (uuid_str id)
            (status_value completed)
            true
            (update id running (set_completed path) v))
  unfolding finish
  finish-Runs path = Runs-then (mark_completed-Runs v calm id path) (
      publish-Runs _ (update-IsCalm v calm id running (set_completed path)) (uuid_str id)
        (status_value completed) true)

  fail-Runs :
      (m : Message)
      → Runs (fail raw id m) v tt (
          drop_processing raw (
            put_status
              (uuid_str id)
              (status_value failed)
              true
              (update id running (set_failed m) v)))
  unfolding fail
  fail-Runs m =
      let gone = update-IsCalm v calm id running (set_failed m) in
      Runs-then (mark_failed-Runs v calm id m) (
        Runs-then (publish-Runs _ gone (uuid_str id) (status_value failed) true)
          (ack-Runs _ (put_status-IsCalm _ gone (uuid_str id) (status_value failed) true) raw))

module _ (executor : Executor) (raw : Text) (job : Job) (row : JobRow) (w v : World)
    (calm : IsCalm w) (later : IsCalm v) (found : find_row job.id v.jobs ≡ some row)
    (going : row.status ≡ running) where
  abbrev last_step : ExecutionResult → M (Unit {0})
  last_step result = finish job.id result.checkpoint_path

  -- `_run` is the announcement, the work, and the last step.
  regrouped :
      (s : World)
      → (preflight job >>= λ model. executor job model (beat job.id) >>= last_step) s
        ≡ (work executor job >>= last_step) s
  regrouped s =
      sym (bind_assoc (preflight job) (λ model. executor job model (beat job.id)) last_step s)

  announcement-calm : IsCalm (update job.id queued set_running w)
  announcement-calm = update-IsCalm w calm job.id queued set_running

  run-Runs :
      (result : ExecutionResult)
      → work executor job (announced job.id w) ≡ (ok result, v)
      → Runs (run executor job) w tt (
          put_status
            (uuid_str job.id)
            (status_value completed)
            true
            (update job.id running (set_completed result.checkpoint_path) v))
  unfolding run
  run-Runs result h = Runs-then (mark_running-Runs w calm job.id) (
      Runs-then (publish-Runs _ announcement-calm (uuid_str job.id) (status_value running) false)
        (record {
          returns =
              regrouped (announced job.id w)
              ∙ (Runs-bind last_step (record { returns = h })
                  (finish-Runs raw job.id row v later found going result.checkpoint_path)).returns;
        }))

  run-Raises :
      (e : Exn)
      → work executor job (announced job.id w) ≡ (raised e, v)
      → Raises (run executor job) w e v
  unfolding run
  run-Raises e h = Runs-then-Raises (mark_running-Runs w calm job.id) (
      Runs-then-Raises
        (publish-Runs _ announcement-calm (uuid_str job.id) (status_value running) false)
        (record {
          raises =
              regrouped (announced job.id w)
              ∙ (Raises-bind last_step (record { raises = h })).raises;
        }))

  pub execute-Reported :
      (r : Result ExecutionResult)
      → is_over r ≡ true
      → work executor job (announced job.id w) ≡ (r, v)
      → (u : World) × (execute executor raw job.id job w ≡ (ok tt, u))
        × Reported raw job.id row r v u
  unfolding execute
  execute-Reported (ok result) over h = (
    _,
    (Runs-attempt _ _ (run-Runs result h) (
        ack-Runs _
          (put_status-IsCalm _ (update-IsCalm v later job.id running _) (uuid_str job.id)
            (status_value completed) true)
          raw)).returns,
    ended raw job.id row v later found going (ok result) (set_completed result.checkpoint_path)
        (λ n x. refl) refl,
  )
  execute-Reported (raised e) over h = (
    _,
    (Raises-attempt _ _ (run-Raises e h)
        (fail-Runs raw job.id row v later found going (message_of e))).returns,
    ended raw job.id row v later found going (raised e) (set_failed (message_of e)) (λ n x. refl)
        refl,
  )
  execute-Reported killed over h = cc
