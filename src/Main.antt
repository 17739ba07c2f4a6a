-- ===== src/Main.antt =====
-- ml-platform/worker/crucible_worker/main.py: the loop of one worker. The stop signal is a list of
-- what `stop.is_set()` answers each time it is asked, and the end of the list is a stop. The clock
-- of the world serves as `time.monotonic`. Building the clients is left out.
pub mod Good
pub mod Tables
pub mod Frozen
pub mod Crashed
pub mod Drain
pub mod Drained
pub mod Recovers
pub mod Lifecycle
pub mod Moves
use krmed_cloud_services.Base.{
  Text, ℕ, ◌-◌, Bool, true, false, Option, none, some, List, [], ◌∷◌, leb, if◌then◌else◌,
}
use krmed_cloud_services.Effects.{ok, pure, ◌>>=◌, ◌>>◌, finally}
use krmed_cloud_services.World.{M}
use krmed_cloud_services.Queue.{claim}
use krmed_cloud_services.Executor.{Executor}
use krmed_cloud_services.Processor.{process}
use krmed_cloud_services.Reconciler.{reconcile}

-- The settings that the loop reads.
pub record LoopConfig : Type 0 where
  pub queue_block_seconds : ℕ
  pub visibility_timeout_seconds : ℕ
  pub orphan_grace_seconds : ℕ
  pub reconcile_interval_seconds : ℕ

-- `time.monotonic()`
unfoldable pub monotonic : M ℕ
monotonic w = (ok w.now, w)

unfoldable pub process_claimed : Executor → Option Text → M (Unit {0})
process_claimed executor none = pure tt
process_claimed executor (some raw_job_id) = process executor raw_job_id

-- Reconcile when the interval has passed, and the time of the last reconciliation.
unfoldable pub reconcile_if_due : LoopConfig → ℕ → ℕ → M ℕ
reconcile_if_due cfg last_reconcile now =
    if leb cfg.reconcile_interval_seconds (now - last_reconcile)
    then reconcile cfg.visibility_timeout_seconds cfg.orphan_grace_seconds >> monotonic
    else pure last_reconcile

-- The body of the `while` loop.
unfoldable pub turn : LoopConfig → Executor → ℕ → M ℕ
turn cfg executor last_reconcile = do
  raw_job_id ← claim cfg.queue_block_seconds
  process_claimed executor raw_job_id
  now ← monotonic
  reconcile_if_due cfg last_reconcile now

unfoldable pub loop : LoopConfig → Executor → ℕ → List Bool → M (Unit {0})
loop cfg executor last_reconcile [] = pure tt
loop cfg executor last_reconcile (true ∷ answers) = pure tt
loop cfg executor last_reconcile (false ∷ answers) =
    turn cfg executor last_reconcile >>= λ last. loop cfg executor last answers

-- `run`, with the closing of the Redis client
unfoldable pub run : LoopConfig → Executor → M (Unit {0}) → List Bool → M (Unit {0})
run cfg executor close answers =
    finally
      (do
        reconcile cfg.visibility_timeout_seconds cfg.orphan_grace_seconds
        start ← monotonic
        loop cfg executor start answers)
      close
