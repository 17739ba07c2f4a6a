-- ===== src/Reconciler.antt =====
-- ml-platform/worker/crucible_worker/reconciler.py: jobs that Redis lost or workers abandoned.
pub mod Calm
pub mod Recovery
pub mod Good
pub mod Frozen
pub mod Theorems
pub mod Stuck
pub mod Backlog
pub mod Sizes
pub mod Fresh
pub mod Parsed
use krmed_cloud_services.Base.{
  Text, ℕ, ◌+◌, Bool, true, false, List, [], ◌∷◌, ◌++◌, contains, length, if◌then◌else◌,
}
use krmed_cloud_services.Effects.{pure, ◌>>=◌, ◌>>◌}
use krmed_cloud_services.Schema.{queued, status_value}
use krmed_cloud_services.Schema.Uuid.{uuid_str}
use krmed_cloud_services.World.{M}
use krmed_cloud_services.Queue.{requeue, queued_ids, in_flight_ids}
use krmed_cloud_services.Status.{publish}
use krmed_cloud_services.Repository.{reset_to_queued, find_stale_running, find_orphan_queued}

pub record ReconcileStats : Type 0 where
  pub abandoned_running : ℕ
  pub orphaned_queued : ℕ

-- The loop of `_recover_abandoned_running`.
unfoldable pub recover_each : List ℕ → M (Unit {0})
recover_each [] = pure tt
recover_each (id ∷ rest) = do
  reset_to_queued id
  publish (uuid_str id) (status_value queued) false
  requeue (uuid_str id)
  recover_each rest

unfoldable pub recover_abandoned_running : ℕ → M ℕ
recover_abandoned_running visibility_timeout = do
  stale ← find_stale_running visibility_timeout
  recover_each stale
  pure (length stale)

-- The loop of `_recover_orphaned_queued`, with the number of jobs it has put back.
unfoldable pub requeue_missing : List Text → List ℕ → M ℕ
requeue_missing live [] = pure 0
requeue_missing live (id ∷ rest) =
    let others = requeue_missing live rest in
    if contains (uuid_str id) live
    then others
    else (do requeue (uuid_str id); n ← others; pure (n + 1))

unfoldable pub recover_candidates : List ℕ → M ℕ
recover_candidates [] = pure 0
recover_candidates (id ∷ rest) = do
  in_queue ← queued_ids
  in_flight ← in_flight_ids
  requeue_missing (in_queue ++ in_flight) (id ∷ rest)

unfoldable pub recover_orphaned_queued : ℕ → M ℕ
recover_orphaned_queued orphan_grace = do
  candidates ← find_orphan_queued orphan_grace
  recover_candidates candidates

unfoldable pub reconcile : ℕ → ℕ → M ReconcileStats
reconcile visibility_timeout orphan_grace = do
  abandoned ← recover_abandoned_running visibility_timeout
  orphaned ← recover_orphaned_queued orphan_grace
  pure (record { abandoned_running = abandoned; orphaned_queued = orphaned })
