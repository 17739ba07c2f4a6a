-- ===== src/Executor/Delivers.antt =====
-- The worker as `run` of main.py builds it, from the loop down to the libraries.
use krmed_cloud_services.Base.{Bool, List}
use krmed_cloud_services.Effects.Closed.{Keeps-Closed}
use krmed_cloud_services.Effects.Rules.{Keeps}
use krmed_cloud_services.World.{World, M}
use krmed_cloud_services.Repository.Frozen.{Evolves, Evolves-order}
use krmed_cloud_services.Executor.Whole.{Libraries, AllGood, worker_executor}
use krmed_cloud_services.Executor.Good.{executor_good}
use krmed_cloud_services.Processor.Frozen.{LeavesTerminal}
use krmed_cloud_services.Main
use krmed_cloud_services.Main.{LoopConfig}
use krmed_cloud_services.Main.Frozen.{run-Evolves}

module _ {Dataset Model Tokenizer : Type 0} (libraries : Libraries Dataset Model Tokenizer) where
  worker-LeavesTerminal :
      AllGood (λ A m. Keeps Evolves m) libraries → LeavesTerminal (worker_executor libraries)
  worker-LeavesTerminal all = record {
    at = executor_good (λ A m. Keeps Evolves m) (Keeps-Closed Evolves-order) libraries all;
  }

  -- With libraries none of whose calls loses a row or changes a terminal one: over a whole run of the
  -- worker with its real executor, of any length, whatever fails and whatever the backend and other workers do, no row
  -- of the table of jobs is lost, each keeps what it was created with, and a row in a terminal status
  -- does not change.
  pub worker_run-Evolves :
      (cfg : LoopConfig) (close : M (Unit {0})) (answers : List Bool) (w : World)
      → AllGood (λ A m. Keeps Evolves m) libraries
      → Keeps Evolves close
      → Evolves w (Main.run cfg (worker_executor libraries) close answers w).1
  worker_run-Evolves cfg close answers w all closes =
      run-Evolves cfg (worker_executor libraries) (worker-LeavesTerminal all) close answers w closes
