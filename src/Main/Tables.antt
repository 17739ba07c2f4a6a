-- ===== src/Main/Tables.antt =====
-- What the table of jobs goes through in a whole run of a worker: its calls keep every relation on
-- tables that allows the updates and the inserts, and so does the run.
use krmed_cloud_services.Base.{Text, refl, List, Bool, arith}
use krmed_cloud_services.Effects.Rules.{Keeps}
use krmed_cloud_services.Effects.Closed.{Keeps-Closed}
use krmed_cloud_services.World.{World, M, JobRow, service, write}
use krmed_cloud_services.Queue.{move_last, drop_processing, push_back}
use krmed_cloud_services.Repository.Table.{TableLaw, OnJobs, OnJobs-Preorder, same_jobs-OnJobs}
use krmed_cloud_services.Executor.{Executor}
use krmed_cloud_services.Processor.Good.{ExecutorGood}
use krmed_cloud_services.Processor.Tables.{OnJobs-CallsGood}
use krmed_cloud_services.Main.{LoopConfig, monotonic, run}
use krmed_cloud_services.Main.Good.{LoopGood, run_good}

module _ {R : List JobRow → List JobRow → Type 0} (law : TableLaw R) where
  requeueing-OnJobs : (t : Text) → Keeps (OnJobs R) (service (write (push_back t)))
  unfolding push_back drop_processing
  requeueing-OnJobs t = same_jobs-OnJobs law (write (push_back t)) (λ w. refl)

  pub OnJobs-LoopGood : LoopGood (λ A (m : M A). Keeps (OnJobs R) m)
  unfolding move_last monotonic
  OnJobs-LoopGood = record {
    calls = OnJobs-CallsGood law;
    requeueing = requeueing-OnJobs;
    claiming = λ block. same_jobs-OnJobs law (move_last block) (λ w. ground arith);
    clock = record { at = λ w. law.reflexive w.jobs };
  }

  pub run-OnJobs :
      (cfg : LoopConfig) (executor : Executor) (close : M (Unit {0})) (answers : List Bool)
      (w : World)
      → ExecutorGood (λ A (m : M A). Keeps (OnJobs R) m) executor
      → Keeps (OnJobs R) close
      → OnJobs R w (run cfg executor close answers w).1
  run-OnJobs cfg executor close answers w respects closes =
      (run_good (λ A m. Keeps (OnJobs R) m) (Keeps-Closed (OnJobs-Preorder law)) OnJobs-LoopGood cfg
          executor respects close answers closes).at
        w
