-- ===== src/Main/Recovers.antt =====
-- A worker that starts after others have gone: what they left behind comes to an end.
use krmed_cloud_services.Base.{Text, ℕ, ◌+◌, ◌≡◌, true, false, List, length, contains}
use krmed_cloud_services.Schema.Uuid.{uuid_str}
use krmed_cloud_services.World.{World}
use krmed_cloud_services.Repository.Readable.{Readable}
use krmed_cloud_services.Executor.{Executor}
use krmed_cloud_services.Reconciler.Calm.{stale_ids, orphan_ids, reconciled}
use krmed_cloud_services.Reconciler.Recovery.{has_id}
use krmed_cloud_services.Main.{LoopConfig}

-- The texts that a worker which starts finds left behind: those on the queue, those of jobs that run
-- with a stale heartbeat, and those of old queued jobs, if they are not in flight.
pub data LeftBehind (cfg : LoopConfig) (w : World) : Text → Type 0 where
  waiting : (t : Text) → contains t w.queue ≡ true → LeftBehind cfg w t
  abandoned :
      (id : ℕ)
      → has_id id (stale_ids cfg.visibility_timeout_seconds w) ≡ true
      → LeftBehind cfg w (uuid_str id)
  lost :
      (id : ℕ)
      → has_id id (orphan_ids cfg.orphan_grace_seconds w) ≡ true
      → contains (uuid_str id) w.processing ≡ false
      → LeftBehind cfg w (uuid_str id)

-- The most texts that can be on the queue once the worker has reconciled.
abbrev pub most : World → ℕ
most w = length w.queue + (length w.jobs + length w.jobs)

module _ (cfg : LoopConfig) where
  abbrev after_start : World → World
  after_start w = reconciled cfg.visibility_timeout_seconds cfg.orphan_grace_seconds w
