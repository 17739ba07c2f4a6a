-- ===== src/Executor/Contract.antt =====
-- The executors of the worker meet what the processor asks of an executor, if their seams do.
use krmed_cloud_services.Base.{Text, ℕ}
use krmed_cloud_services.Effects.Rules.{Keeps, Keeps-pure, Keeps-bind, Keeps-then, Keeps-finally}
use krmed_cloud_services.Effects.Steady.{Steady-pure, Steady-then}
use krmed_cloud_services.Schema.{Job}
use krmed_cloud_services.World.{M}
use krmed_cloud_services.Stores.{LocalPath}
use krmed_cloud_services.Repository.{ModelMeta}
use krmed_cloud_services.Repository.Frozen.{Evolves, Evolves-order}
use krmed_cloud_services.Executor.{Seams, with_temporary, caching_executor, stub_executor}
use krmed_cloud_services.Processor.Frozen.{LeavesTerminal}
use krmed_cloud_services.Processor.Started.{beat-IsStarted}
use krmed_cloud_services.Processor.Settles.{Cooperates}

-- `StubExecutor` returns without faults, and keeps the job off the queue.
pub stub_executor-Cooperates : Cooperates stub_executor
unfolding stub_executor
stub_executor-Cooperates = record {
  at = λ job model. Steady-then _ _ (beat-IsStarted job.id) (Steady-pure _);
}

pub stub_executor-LeavesTerminal : LeavesTerminal stub_executor
unfolding stub_executor
stub_executor-LeavesTerminal = record {
  at = λ job model heartbeat h. Keeps-then Evolves-order _ _ h (Keeps-pure Evolves-order _);
}

-- Seams that leave terminal rows alone.
pub record SeamsLeaveTerminal (seams : Seams) : Type 0 where
  pub ensure : (model : ModelMeta) → Keeps Evolves (seams.ensure model)
  pub download : (path dir : Text) → Keeps Evolves (seams.download path dir)
  pub train :
      (job : Job) (model : Text) (dataset : LocalPath) (out : Text) (heartbeat : M (Unit {0}))
      → Keeps Evolves heartbeat
      → Keeps Evolves (seams.train job model dataset out heartbeat)
  pub upload : (id : ℕ) (dir : Text) → Keeps Evolves (seams.upload id dir)
  pub make_dir : (prefix : Text) → Keeps Evolves (seams.make_dir prefix)
  pub remove_dir : (dir : Text) → Keeps Evolves (seams.remove_dir dir)

module _ (seams : Seams) (leave : SeamsLeaveTerminal seams) where
  with_temporary-Evolves :
      {A : Type 0} (prefix : Text) (body : Text → M A)
      → ((dir : Text) → Keeps Evolves (body dir))
      → Keeps Evolves (with_temporary seams prefix body)
  unfolding with_temporary
  with_temporary-Evolves prefix body h =
      Keeps-bind Evolves-order _ _ (leave.make_dir prefix)
        (λ dir. Keeps-finally Evolves-order _ _ (h dir) (leave.remove_dir dir))

  -- `CachingExecutor` leaves terminal rows alone if its seams do.
  pub caching_executor-LeavesTerminal : LeavesTerminal (caching_executor seams)
  unfolding caching_executor
  caching_executor-LeavesTerminal = record {
    at = λ job model heartbeat h. Keeps-bind Evolves-order _ _ (leave.ensure model) (λ path.
        Keeps-then Evolves-order _ _ h (
          Keeps-bind Evolves-order _ _
            (with_temporary-Evolves _ _ (λ data_tmp. with_temporary-Evolves _ _ (λ out_tmp.
              Keeps-bind Evolves-order _ _ (leave.download job.dataset_path data_tmp) (λ dataset.
                Keeps-then Evolves-order _ _ h (
                  Keeps-then Evolves-order _ _ (leave.train job path dataset out_tmp heartbeat h)
                    (leave.upload job.id out_tmp))))))
            (λ result. Keeps-pure Evolves-order _)));
  }
