-- ===== src/Processor/Cancelled.antt =====
-- A cancel that lands while the job runs: what Postgres and the status hash say afterwards.
use krmed_cloud_services.Base.{Text, ℕ, ◌≡◌, refl, ◌∙◌, true, some, text_eq_refl, arith}
use krmed_cloud_services.Effects.{ok}
use krmed_cloud_services.Effects.Runs.{Runs-then}
use krmed_cloud_services.Schema.{running, completed, cancelled, status_eq, status_value}
use krmed_cloud_services.Schema.Uuid.{uuid_str}
use krmed_cloud_services.World.{World, JobRow}
use krmed_cloud_services.World.Calm.{IsCalm}
use krmed_cloud_services.Status.{hash_of, hash_of-put_status, put_status, terminal_ttl_seconds}
use krmed_cloud_services.Repository.{find_row, update, set_completed}
use krmed_cloud_services.Repository.Rows.{find_row-update_jobs}
use krmed_cloud_services.Calls.{mark_completed-Runs, publish-Runs, update-IsCalm}
use krmed_cloud_services.Processor.{finish}

row_kept :
    (id : ℕ) (path : Text) (row : JobRow) (w : World)
    → find_row id w.jobs ≡ some row
    → row.status ≡ cancelled
    → find_row id (update id running (set_completed path) w).jobs ≡ some row
unfolding update status_eq
row_kept id path row w found gone =
    find_row-update_jobs id running (set_completed path w.now) w.jobs (λ r. refl) ∙ ground arith

-- Without faults, when the backend has cancelled a job by the time its executor returns, the end of `_run` leaves
-- the row cancelled, and yet writes `completed` to the status hash that the backend serves.
pub finish_cancelled :
    (id : ℕ) (path : Text) (row : JobRow) (w : World)
    → IsCalm w
    → find_row id w.jobs ≡ some row
    → row.status ≡ cancelled
    → (v : World) × (finish id path w ≡ (ok tt, v))
      × (find_row id v.jobs ≡ some row)
      × (hash_of (uuid_str id) v
          ≡ some (record {
            status = status_value completed;
            updated_at = w.now;
            ttl = some terminal_ttl_seconds;
          }))
unfolding finish
finish_cancelled id path row w calm found gone =
    let w1 = update id running (set_completed path) w in
    (
      put_status (uuid_str id) (status_value completed) true w1,
      (Runs-then (mark_completed-Runs w calm id path) (
          publish-Runs w1 (update-IsCalm w calm id running (set_completed path)) (uuid_str id)
            (status_value completed) true)).returns,
      unfold put_status in row_kept id path row w found gone,
      hash_of-put_status (uuid_str id) (uuid_str id) (status_value completed) true w1
          ∙ (unfold update in rw (text_eq_refl (uuid_str id))),
    )
