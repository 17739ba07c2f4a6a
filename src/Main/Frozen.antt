-- ===== src/Main/Frozen.antt =====
-- A whole run of a worker changes the table of jobs only as `Repository.Frozen` allows.
use krmed_cloud_services.Base.{List, Bool}
use krmed_cloud_services.Effects.Rules.{Keeps}
use krmed_cloud_services.World.{World, M}
use krmed_cloud_services.Repository.Frozen.{Evolves, Evolves-TableLaw}
use krmed_cloud_services.Executor.{Executor}
use krmed_cloud_services.Processor.Frozen.{LeavesTerminal, LeavesTerminal-ExecutorGood}
use krmed_cloud_services.Main.{LoopConfig, run}
use krmed_cloud_services.Main.Tables.{run-OnJobs}

module _ (cfg : LoopConfig) (executor : Executor) (leaves : LeavesTerminal executor) where
  -- With an executor that leaves terminal rows alone as long as its heartbeat does, and a closing of
  -- the client that does too: over a whole run of a worker, of any length, whatever fails and whatever
  -- the backend and other workers do, no row of the table of jobs is lost, each keeps what it was created
  -- with, and a row in a terminal status does not change.
  pub run-Evolves :
      (close : M (Unit {0})) (answers : List Bool) (w : World)
      → Keeps Evolves close
      → Evolves w (run cfg executor close answers w).1
  run-Evolves close answers w closes =
      run-OnJobs Evolves-TableLaw cfg executor close answers w
        (LeavesTerminal-ExecutorGood executor leaves) closes
