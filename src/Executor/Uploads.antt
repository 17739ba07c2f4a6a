-- ===== src/Executor/Uploads.antt =====
-- What stands behind a result of the executor as `run` of main.py builds it: the checkpoint is in the
-- bucket, and stays there when the temporary directories go.
use krmed_cloud_services.Base.{Text, ◌≡◌, false, List, ◌++◌, is_empty, All}
use krmed_cloud_services.Effects.Rules.{Keeps}
use krmed_cloud_services.Schema.{Job}
use krmed_cloud_services.World.{World}
use krmed_cloud_services.Stores.{LocalPath, inside}
use krmed_cloud_services.Stores.Loops.{Still, Gets}
use krmed_cloud_services.Stores.Transfers.{Moves}
use krmed_cloud_services.Executor.{checkpoint_prefix}
use krmed_cloud_services.Executor.Whole.{Libraries}

module _ {Dataset Model Tokenizer : Type 0} (libraries : Libraries Dataset Model Tokenizer)
    (Here There : LocalPath → Text → World → Type 0) (moves : Moves libraries.client Here There)
    (Listed : Text → List Text → Type 0)
    (lists : (dir : Text) → Gets (libraries.files_below dir) (λ files _. Listed dir files))
    (stays : (dir key : Text) (p : LocalPath)
      → Keeps (Still (There p key)) (libraries.remove_dir dir))
    (job : Job) where
  -- The files that were listed in some directory are in the bucket below the path, which is that of the job.
  abbrev Sent : Text → World → Type 0
  Sent path s =
      (dir : Text) × (files : List Text) × Listed dir files
      × (path ≡ checkpoint_prefix job)
      × (is_empty files ≡ false)
      × All (λ f. There (inside dir f) (path ++ f) s) files
