-- ===== src/Executor.antt =====
-- ml-platform/worker/crucible_worker/executor.py: what turns a claimed job into a checkpoint. The
-- stores, the trainer and the temporary directories are the seams of `CachingExecutor`; they act on
-- the world in any way, so time may pass and others may act while they run.
pub mod Contract
pub mod Whole
pub mod Good
pub mod Delivers
pub mod Uploads
use krmed_cloud_services.Base.{Text, ℕ, ◌++◌, codes}
use krmed_cloud_services.Effects.{pure, ◌>>=◌, ◌>>◌, finally}
use krmed_cloud_services.Schema.{Job}
use krmed_cloud_services.Schema.Uuid.{uuid_str}
use krmed_cloud_services.World.{M}
use krmed_cloud_services.Stores.{LocalPath, inside}
use krmed_cloud_services.Repository.{ModelMeta}

pub record ExecutionResult : Type 0 where
  pub checkpoint_path : Text

-- `Executor.run`: the job, the model and the heartbeat to call.
abbrev pub Executor : Type 0
Executor = Job → ModelMeta → M (Unit {0}) → M ExecutionResult

unfoldable pub checkpoint_prefix : Job → Text
checkpoint_prefix job = codes "checkpoints/" ++ (uuid_str job.id ++ codes "/")

-- The injected collaborators, and the two ends of a `tempfile.TemporaryDirectory`.
pub record Seams : Type 0 where
  pub ensure : ModelMeta → M Text
  pub download : Text → Text → M LocalPath
  pub train : Job → Text → LocalPath → Text → M (Unit {0}) → M (Unit {0})
  pub upload : ℕ → Text → M Text
  pub make_dir : Text → M Text
  pub remove_dir : Text → M (Unit {0})

-- `with tempfile.TemporaryDirectory(prefix=…) as d: body(d)`
unfoldable pub with_temporary : {A : Type 0} → Seams → Text → (Text → M A) → M A
with_temporary seams prefix body = do
  dir ← seams.make_dir prefix
  finally (body dir) (seams.remove_dir dir)

-- `CachingExecutor.run`
unfoldable pub caching_executor : Seams → Executor
caching_executor seams job model heartbeat = do
  model_path ← seams.ensure model
  heartbeat
  checkpoint_path ←
      with_temporary seams (codes "crucible-data-" ++ (uuid_str job.id ++ codes "-")) λ data_tmp.
        with_temporary seams (codes "crucible-out-" ++ (uuid_str job.id ++ codes "-")) λ out_tmp. do
          dataset_path ← seams.download job.dataset_path data_tmp
          heartbeat
          seams.train job model_path dataset_path out_tmp heartbeat
          seams.upload job.id out_tmp
  pure (record { checkpoint_path = checkpoint_path })

-- `StubExecutor.run`
unfoldable pub stub_executor : Executor
stub_executor job model heartbeat =
    heartbeat >> pure (record { checkpoint_path = checkpoint_prefix job })

-- `StubTrainer.train`, over the writing of a text to a path.
unfoldable pub stub_train :
    (LocalPath → Text → M (Unit {0})) → Job → Text → LocalPath → Text → M (Unit {0}) → M (Unit {0})
stub_train write_text job model_path dataset_path output_dir heartbeat =
    heartbeat
    >> write_text (inside output_dir (codes "STUB_ADAPTER.txt")) (
        codes "stub adapter for job "
        ++ (uuid_str job.id ++ codes "; replaced by the Phase 5C trainer\n"))
