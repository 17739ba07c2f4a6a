-- ===== src/Main/Lifecycle.antt =====
-- A whole run of a worker leaves the table well kept.
use krmed_cloud_services.Base.{List, Bool}
use krmed_cloud_services.Effects.Rules.{Keeps}
use krmed_cloud_services.World.{World, M}
use krmed_cloud_services.Repository.Table.{OnJobs}
use krmed_cloud_services.Repository.Results.{WellKept, StaysKept, StaysKept-TableLaw}
use krmed_cloud_services.Executor.{Executor}
use krmed_cloud_services.Processor.Good.{ExecutorGood}
use krmed_cloud_services.Main.{LoopConfig, run}
use krmed_cloud_services.Main.Tables.{run-OnJobs}

module _ (cfg : LoopConfig) (executor : Executor) (close : M (Unit {0})) (answers : List Bool)
    (w : World) where
  -- If no two rows of the table have one id, exactly the completed jobs have a checkpoint, and exactly
  -- the failed jobs have an error message, then so it is after a whole run of a worker of any length,
  -- whatever fails and whatever the backend and other workers do. Supposed: the executor keeps this
  -- if its heartbeat does, and the closing of the client keeps it.
  pub run-WellKept :
      ExecutorGood (λ A (m : M A). Keeps (OnJobs StaysKept) m) executor
      → Keeps (OnJobs StaysKept) close
      → WellKept w.jobs
      → WellKept (run cfg executor close answers w).1.jobs
  run-WellKept = run-OnJobs StaysKept-TableLaw cfg executor close answers w
