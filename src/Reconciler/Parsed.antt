-- ===== src/Reconciler/Parsed.antt =====
-- What the reconciler pushes is what the processor can read.
use krmed_cloud_services.Base.{
  Text, ℕ, ◌<◌, ◌≡◌, refl, true, some, List, [], ◌∷◌, All, All-imp, ==_refl, arith,
}
use krmed_cloud_services.Schema.Uuid.{uuid_bound, uuid_str, uuid_of}
use krmed_cloud_services.Schema.Uuid.RoundTrip.{uuid_of-uuid_str}
use krmed_cloud_services.World.{World, JobRow, has_job}
use krmed_cloud_services.World.Calm.{IsCalm}
use krmed_cloud_services.Reconciler.Calm.{reconciled, reconcile-Runs}
use krmed_cloud_services.Reconciler.Backlog.{reconciled-queue}
use krmed_cloud_services.Reconciler.Theorems.{Reconciles}

-- The text is read back as the id of one of the rows.
pub record Parses (rows : List JobRow) (t : Text) : Type 0 where
  pub id : ℕ
  pub parsed : uuid_of t ≡ some id
  pub there : has_job id rows ≡ true

own_rows : (rows : List JobRow) → All (λ (r : JobRow). has_job r.id rows ≡ true) rows
unfolding has_job
own_rows [] = tt
own_rows (r ∷ rows) =
    (rw (==_refl r.id) refl, All-imp rows (λ x h. ground (arith, h)) (own_rows rows))

row-Parses :
    (all rows : List JobRow)
    → All (λ (r : JobRow). r.id < uuid_bound) rows
    → All (λ (r : JobRow). has_job r.id all ≡ true) rows
    → All (λ (r : JobRow). Parses all (uuid_str r.id)) rows
row-Parses all [] h k = tt
row-Parses all (r ∷ rows) (small, hs) (there, ks) = (
  record { id = r.id; parsed = uuid_of-uuid_str r.id small; there = there },
  row-Parses all rows hs ks,
)

-- Without faults, when each text on the queue is read back as the id of a row, and the ids of all rows
-- are integers of UUIDs, a reconciliation returns, and each text that is then on the queue, those
-- that it pushed among them, is read back as the id of a row that the table had.
pub reconcile-Parses :
    (age grace : ℕ) (w : World)
    → IsCalm w
    → All (Parses w.jobs) w.queue
    → All (λ (r : JobRow). r.id < uuid_bound) w.jobs
    → Reconciles age grace w (λ _ v. All (Parses w.jobs) v.queue)
reconcile-Parses age grace w calm queued small = (
  _,
  reconciled age grace w,
  (reconcile-Runs age grace w calm).returns,
  reconciled-queue (Parses w.jobs) age grace w queued
      (row-Parses w.jobs w.jobs small (own_rows w.jobs)),
)
