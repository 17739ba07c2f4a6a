-- ===== src/Processor/Frozen.antt =====
-- Processing a job changes the table of jobs only as `Repository.Frozen` allows.
use krmed_cloud_services.Base.{Text}
use krmed_cloud_services.Effects.Rules.{Keeps}
use krmed_cloud_services.Effects.Closed.{Keeps-Closed}
use krmed_cloud_services.Schema.{Job}
use krmed_cloud_services.World.{World, M}
use krmed_cloud_services.Repository.{ModelMeta}
use krmed_cloud_services.Repository.Frozen.{Evolves, Evolves-order, Evolves-TableLaw}
use krmed_cloud_services.Executor.{Executor}
use krmed_cloud_services.Processor.{process, beat}
use krmed_cloud_services.Processor.Good.{ExecutorGood, process_good}
use krmed_cloud_services.Processor.Tables.{OnJobs-CallsGood}

-- An executor that leaves terminal rows alone, as long as the heartbeat it is given does.
pub record LeavesTerminal (executor : Executor) : Type 0 where
  pub at :
      (job : Job) (model : ModelMeta) (heartbeat : M (Unit {0}))
      → Keeps Evolves heartbeat
      → Keeps Evolves (executor job model heartbeat)

module _ (executor : Executor) (leaves : LeavesTerminal executor) where
  pub LeavesTerminal-ExecutorGood : ExecutorGood (λ A (m : M A). Keeps Evolves m) executor
  LeavesTerminal-ExecutorGood = record { at = λ job model. leaves.at job model (beat job.id) }

  -- With an executor that leaves terminal rows alone as long as its heartbeat does, whatever fails
  -- and whatever the backend and other workers do: processing a job loses no row, keeps what each row was created
  -- with, and changes no row whose status is terminal, so a cancel is never overwritten.
  pub process-Evolves : (raw : Text) (w : World) → Evolves w (process executor raw w).1
  process-Evolves raw w =
      (process_good (λ A m. Keeps Evolves m) (Keeps-Closed Evolves-order)
          (OnJobs-CallsGood Evolves-TableLaw) executor LeavesTerminal-ExecutorGood raw).at
        w
