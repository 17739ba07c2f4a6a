-- ===== src/Reconciler/Calm.antt =====
-- Without faults a reconciliation is a function of the world.
use krmed_cloud_services.Base.{
  Text, ℕ, ◌+◌, false, List, [], ◌∷◌, ◌++◌, contains, length, keep_if, if◌then◌else◌, Bool-cases,
  inl, inr,
}
use krmed_cloud_services.Effects.Runs.{Runs, Runs-pure, Runs-bind, Runs-then}
use krmed_cloud_services.Schema.{queued, running, status_value}
use krmed_cloud_services.Schema.Uuid.{uuid_str}
use krmed_cloud_services.World.{World}
use krmed_cloud_services.World.Calm.{IsCalm}
use krmed_cloud_services.Queue.{push_back}
use krmed_cloud_services.Status.{put_status}
use krmed_cloud_services.Repository.{update, set_queued, ids, is_stale, is_orphan}
use krmed_cloud_services.Calls.{
  reset_to_queued-Runs, publish-Runs, requeue-Runs, queued_ids-Runs, in_flight_ids-Runs,
  find_stale_running-Runs, find_orphan_queued-Runs, push_back-IsCalm, put_status-IsCalm,
  update-IsCalm,
}
use krmed_cloud_services.Reconciler.{
  recover_each, recover_abandoned_running, requeue_missing, recover_candidates,
  recover_orphaned_queued, reconcile,
}

unfoldable pub stale_ids : ℕ → World → List ℕ
stale_ids age w = ids (keep_if (is_stale age w.now) w.jobs)

unfoldable pub orphan_ids : ℕ → World → List ℕ
orphan_ids grace w = ids (keep_if (is_orphan grace w.now) w.jobs)

unfoldable pub live : World → List Text
live w = w.queue ++ w.processing

-- One abandoned job put back.
unfoldable pub recovered_one : ℕ → World → World
recovered_one id w =
    push_back (uuid_str id)
      (put_status (uuid_str id) (status_value queued) false (update id running set_queued w))

unfoldable pub recovered : List ℕ → World → World
recovered [] w = w
recovered (id ∷ rest) w = recovered rest (recovered_one id w)

-- The candidates that are not live put back.
unfoldable pub requeued : List Text → List ℕ → World → World
requeued known [] w = w
requeued known (id ∷ rest) w =
    requeued known rest (if contains (uuid_str id) known then w else push_back (uuid_str id) w)

unfoldable pub missing : List Text → List ℕ → ℕ
missing known [] = 0
missing known (id ∷ rest) =
    let n = missing known rest in if contains (uuid_str id) known then n else n + 1

module _ (id : ℕ) (w : World) (calm : IsCalm w) where
  abbrev reset : World
  reset = update id running set_queued w

  reset-IsCalm : IsCalm reset
  reset-IsCalm = update-IsCalm w calm id running set_queued

  abbrev told : World
  told = put_status (uuid_str id) (status_value queued) false reset

  told-IsCalm : IsCalm told
  told-IsCalm = put_status-IsCalm reset reset-IsCalm (uuid_str id) (status_value queued) false

  recovered_one-IsCalm : IsCalm (recovered_one id w)
  unfolding recovered_one
  recovered_one-IsCalm = push_back-IsCalm told told-IsCalm (uuid_str id)

pub recovered-IsCalm : (l : List ℕ) (w : World) → IsCalm w → IsCalm (recovered l w)
unfolding recovered
recovered-IsCalm [] w h = h
recovered-IsCalm (id ∷ rest) w h =
    recovered-IsCalm rest (recovered_one id w) (recovered_one-IsCalm id w h)

recover_each-Runs : (l : List ℕ) (w : World) → IsCalm w → Runs (recover_each l) w tt (recovered l w)
unfolding recovered recover_each recovered_one
recover_each-Runs [] w h = Runs-pure tt w
recover_each-Runs (id ∷ rest) w h = Runs-then (reset_to_queued-Runs w h id) (
    Runs-then
      (publish-Runs (reset id w h) (reset-IsCalm id w h) (uuid_str id) (status_value queued) false)
      (Runs-then (requeue-Runs (told id w h) (told-IsCalm id w h) (uuid_str id))
        (recover_each-Runs rest _ (recovered_one-IsCalm id w h))))

requeue_missing-Runs :
    (known : List Text) (l : List ℕ) (w : World)
    → IsCalm w
    → Runs (requeue_missing known l) w (missing known l) (requeued known l w)
unfolding requeue_missing missing requeued
requeue_missing-Runs known [] w h = Runs-pure 0 w
requeue_missing-Runs known (id ∷ rest) w h = elim (Bool-cases (contains (uuid_str id) known)) [
  | inl there ↦ rw there (requeue_missing-Runs known rest w h)
  | inr gone ↦ rw gone (
      Runs-then (requeue-Runs w h (uuid_str id)) (
        Runs-bind _
          (requeue_missing-Runs known rest (push_back (uuid_str id) w)
            (push_back-IsCalm w h (uuid_str id)))
          (Runs-pure _ _)))
]

recover_candidates-Runs :
    (l : List ℕ) (w : World)
    → IsCalm w
    → Runs (recover_candidates l) w (missing (live w) l) (requeued (live w) l w)
unfolding recover_candidates
recover_candidates-Runs [] w h = unfold missing requeued in Runs-pure 0 w
recover_candidates-Runs (id ∷ rest) w h =
    unfold live in
    Runs-bind _ (queued_ids-Runs w h) (
      Runs-bind _ (in_flight_ids-Runs w h)
        (requeue_missing-Runs (w.queue ++ w.processing) (id ∷ rest) w h))

-- The world after a reconciliation.
unfoldable pub reconciled : ℕ → ℕ → World → World
reconciled age grace w =
    let v = recovered (stale_ids age w) w in requeued (live v) (orphan_ids grace v) v

pub reconcile-Runs :
    (age grace : ℕ) (w : World)
    → IsCalm w
    → let v = recovered (stale_ids age w) w in
      Runs
        (reconcile age grace)
        w
        (record {
          abandoned_running = length (stale_ids age w);
          orphaned_queued = missing (live v) (orphan_ids grace v);
        })
        (reconciled age grace w)
unfolding reconcile reconciled recover_abandoned_running recover_orphaned_queued stale_ids
    orphan_ids
reconcile-Runs age grace w h =
    let stale = ids (keep_if (is_stale age w.now) w.jobs) in
    let v = recovered stale w in
    let calm = recovered-IsCalm stale w h in
    Runs-bind _
      (Runs-bind _ (find_stale_running-Runs w h age)
        (Runs-then (recover_each-Runs stale w h) (Runs-pure (length stale) v)))
      (Runs-bind _
        (Runs-bind _ (find_orphan_queued-Runs v calm grace)
          (recover_candidates-Runs (ids (keep_if (is_orphan grace v.now) v.jobs)) v calm))
        (Runs-pure _ _))
