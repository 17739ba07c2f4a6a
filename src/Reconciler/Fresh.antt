-- ===== src/Reconciler/Fresh.antt =====
-- A job whose heartbeat is fresh is left to its worker.
use krmed_cloud_services.Base.{
  ltb, ◌+◌, ◌&&◌, Text, ℕ, ◌≡◌, refl, ap, sym, ◌∙◌, Bool, false, ◌==◌, ==_iff, some, List, [], ◌∷◌,
  contains, keep_if, Bool-cases, inl, inr, arith,
}
use krmed_cloud_services.Schema.{JobStatus, running, status_eq}
use krmed_cloud_services.Schema.Uuid.{uuid_str}
use krmed_cloud_services.World.{World, JobRow, update_jobs, has_job}
use krmed_cloud_services.World.Calm.{IsCalm}
use krmed_cloud_services.Queue.{push_back}
use krmed_cloud_services.Status.{put_status}
use krmed_cloud_services.Repository.{find_row, update, set_queued, ids, is_stale, older_than}
use krmed_cloud_services.Reconciler.Calm.{
  stale_ids, recovered_one, recovered, requeued, reconciled, reconcile-Runs,
}
use krmed_cloud_services.Reconciler.Recovery.{has_id}
use krmed_cloud_services.Reconciler.Theorems.{Reconciles}

kept_no_id :
    (id : ℕ) (p : JobRow → Bool) (rows : List JobRow)
    → has_job id rows ≡ false
    → has_id id (ids (keep_if p rows)) ≡ false
unfolding has_job
kept_no_id id p [] h = refl
kept_no_id id p (r ∷ rows) h = ground (arith, kept_no_id id p rows)

-- The ids of the rows differ.
abbrev pub DistinctIds : List JobRow → Type 0
DistinctIds [] = Unit
DistinctIds (r ∷ rows) = (has_job r.id rows ≡ false) × DistinctIds rows

-- Where the ids differ, a row that is not kept leaves no trace of its id.
kept_other :
    (id : ℕ) (p : JobRow → Bool) (rows : List JobRow) (row : JobRow)
    → DistinctIds rows
    → find_row id rows ≡ some row
    → p row ≡ false
    → has_id id (ids (keep_if p rows)) ≡ false
kept_other id p [] row kept found out = cc
kept_other id p (r ∷ rows) row (alone, rest) found out = elim (Bool-cases (r.id == id)) [
  | inl hit ↦
      let same : r ≡ row = ground arith in
      let dropped : p r ≡ false = ap p same ∙ out in
      rw dropped
        (kept_no_id id p rows (ap (λ i. has_job i rows) (sym ((==_iff r.id id).0 hit)) ∙ alone))
  | inr miss ↦
      let later = kept_other id p rows row rest (ground arith) out in
      elim (Bool-cases (p r)) [
        | inl kept ↦ rw kept (ground (arith, later))
        | inr dropped ↦ rw dropped later
      ]
]

-- An update of another job.
find_row-other :
    (id x : ℕ) (expected : JobStatus) (f : JobRow → JobRow) (rows : List JobRow)
    → ((r : JobRow) → (f r).id ≡ r.id)
    → (x == id) ≡ false
    → find_row id (update_jobs x expected f rows) ≡ find_row id rows
unfolding update_jobs
find_row-other id x expected f [] keeps other = refl
find_row-other id x expected f (r ∷ rows) keeps other =
    ground (arith, keeps r, find_row-other id x expected f rows keeps other)

recovered-find_row :
    (id : ℕ) (l : List ℕ) (w : World)
    → has_id id l ≡ false
    → find_row id (recovered l w).jobs ≡ find_row id w.jobs
unfolding recovered recovered_one push_back put_status update
recovered-find_row id [] w h = refl
recovered-find_row id (x ∷ l) w h =
    recovered-find_row id l (recovered_one x w) (ground arith)
    ∙ find_row-other id x running (set_queued w.now) w.jobs (λ r. refl) (ground arith)

requeued-jobs : (known : List Text) (l : List ℕ) (w : World) → (requeued known l w).jobs ≡ w.jobs
unfolding requeued push_back
requeued-jobs known [] w = refl
requeued-jobs known (x ∷ l) w = elim (Bool-cases (contains (uuid_str x) known)) [
  | inl there ↦ rw (there, requeued) (requeued-jobs known l w)
  | inr gone ↦ rw (gone, requeued) (requeued-jobs known l (push_back (uuid_str x) w))
]

not_stale :
    (age now : ℕ) (row : JobRow)
    → (status_eq row.status running && ltb (row.updated_at + age) now) ≡ false
    → is_stale age now row ≡ false
unfolding is_stale older_than
not_stale age now row h = h

-- Without faults and where no two jobs have one id, a reconciliation returns, and leaves the row of a
-- job as it was unless the job was running and its last heartbeat, with the visibility timeout added,
-- lies before now.
pub reconcile-fresh :
    (age grace id : ℕ) (row : JobRow) (w : World)
    → IsCalm w
    → DistinctIds w.jobs
    → find_row id w.jobs ≡ some row
    → (status_eq row.status running && ltb (row.updated_at + age) w.now) ≡ false
    → Reconciles age grace w (λ _ v. find_row id v.jobs ≡ some row)
reconcile-fresh age grace id row w calm kept found fresh = (
  _,
  reconciled age grace w,
  (reconcile-Runs age grace w calm).returns,
  unfold reconciled stale_ids in
      ap (find_row id) (requeued-jobs _ _ (recovered (stale_ids age w) w))
      ∙ recovered-find_row id (stale_ids age w) w
          (kept_other id (is_stale age w.now) w.jobs row kept found (not_stale age w.now row fresh))
      ∙ found,
)
