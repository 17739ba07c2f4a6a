-- ===== src/Reconciler/Sizes.antt =====
-- How long the queue is after a reconciliation: two more texts for each row of the table, at most.
use krmed_cloud_services.Base.{
  Text, ℕ, suc, ◌+◌, ◌≡◌, refl, ap, ◌∙◌, Bool, true, List, [], ◌∷◌, contains, length, leb, keep_if,
  Bool-cases, inl, inr, arith,
}
use krmed_cloud_services.Schema.{running}
use krmed_cloud_services.Schema.Uuid.{uuid_str}
use krmed_cloud_services.World.{World, JobRow, update_jobs}
use krmed_cloud_services.Queue.{push_back}
use krmed_cloud_services.Status.{put_status}
use krmed_cloud_services.Repository.{update, set_queued, ids, is_stale, is_orphan}
use krmed_cloud_services.Reconciler.Calm.{
  stale_ids, orphan_ids, live, recovered_one, recovered, requeued, reconciled,
}

length-ids :
    (p : JobRow → Bool) (rows : List JobRow)
    → leb (length (ids (keep_if p rows))) (length rows) ≡ true
length-ids p [] = refl
length-ids p (r ∷ rows) = elim (Bool-cases (p r)) [
  | inl kept ↦ rw kept (ground (arith, length-ids p rows))
  | inr dropped ↦ rw dropped (ground (arith, length-ids p rows))
]

length-update_jobs :
    (x now : ℕ) (rows : List JobRow)
    → length (update_jobs x running (set_queued now) rows) ≡ length rows
unfolding update_jobs
length-update_jobs x now [] = refl
length-update_jobs x now (r ∷ rows) = ap suc (length-update_jobs x now rows)

recovered-jobs : (l : List ℕ) (w : World) → length (recovered l w).jobs ≡ length w.jobs
unfolding recovered recovered_one push_back put_status update
recovered-jobs [] w = refl
recovered-jobs (x ∷ l) w = recovered-jobs l (recovered_one x w) ∙ length-update_jobs x w.now w.jobs

length-recovered :
    (l : List ℕ) (w : World) → length (recovered l w).queue ≡ length l + length w.queue
unfolding recovered recovered_one push_back put_status update
length-recovered [] w = omega arith
length-recovered (x ∷ l) w = length-recovered l (recovered_one x w) ∙ omega arith

length-requeued :
    (known : List Text) (l : List ℕ) (w : World)
    → leb (length (requeued known l w).queue) (length l + length w.queue) ≡ true
unfolding requeued push_back
length-requeued known [] w = ground arith
length-requeued known (x ∷ l) w = elim (Bool-cases (contains (uuid_str x) known)) [
  | inl there ↦ rw (there, requeued) (ground (arith, length-requeued known l w))
  | inr gone ↦
      rw (gone, requeued) (ground (arith, length-requeued known l (push_back (uuid_str x) w)))
]

pub length-reconciled :
    (age grace : ℕ) (w : World)
    → leb (length (reconciled age grace w).queue) (length w.queue + (length w.jobs + length w.jobs))
      ≡ true
unfolding reconciled stale_ids orphan_ids
length-reconciled age grace w =
    let v = recovered (stale_ids age w) w in
    ground (
      arith,
      length-requeued (live v) (orphan_ids grace v) v,
      length-recovered (stale_ids age w) w,
      recovered-jobs (stale_ids age w) w,
      length-ids (is_stale age w.now) w.jobs,
      length-ids (is_orphan grace v.now) v.jobs,
    )
