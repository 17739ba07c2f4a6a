-- ===== src/Executor/Whole.antt =====
-- The executor of the worker with its parts: `run` of main.py builds `CachingExecutor` from the model
-- cache, the two stores and the trainer. What holds of every call of the libraries holds of it.
use krmed_cloud_services.Base.{Text, ℕ, Bool, List}
use krmed_cloud_services.Effects.{◌>>=◌}
use krmed_cloud_services.World.{World, M}
use krmed_cloud_services.ModelCache
use krmed_cloud_services.ModelCache.{Hub}
use krmed_cloud_services.Stores
use krmed_cloud_services.Stores.{
  Client, LocalPath, directory, guarded, for_each, list_keys, fetch, fetch_all, download_prefix,
  download_single, store, store_all, object_keys, as_prefix,
}
use krmed_cloud_services.Trainer
use krmed_cloud_services.Trainer.{
  Gpu, Found, TrainConfig, PeftConfig, default_max_seq_length, resolve_text_field,
  dataset_load_spec, spec_of, single, all_known, fit_in, is_dir, is_file, is_missing, suffixes,
  unknown, formats,
}
use krmed_cloud_services.Executor.{Seams, Executor, caching_executor}

-- The libraries below the executor.
pub record Libraries (Dataset Model Tokenizer : Type 0) : Type 0 where
  pub hub : Hub World
  pub cache_dir : Text
  pub client : Client World
  pub gpu : Gpu World Dataset Model Tokenizer
  pub files_below : Text → M (List Text)
  pub make_dir : Text → M Text
  pub remove_dir : Text → M (Unit {0})

module _ {Dataset Model Tokenizer : Type 0} (libraries : Libraries Dataset Model Tokenizer) where
  open libraries use {hub, cache_dir, client, gpu, files_below, make_dir, remove_dir}

  unfoldable pub upload_below : ℕ → Text → M Text
  upload_below job_id dir = do files ← files_below dir; Stores.upload client job_id dir files

  -- The seams as `run` fills them.
  unfoldable pub worker_seams : Seams
  unfolding upload_below
  worker_seams = record {
    ensure = ModelCache.ensure hub cache_dir;
    download = Stores.download client;
    train = Trainer.train gpu default_max_seq_length;
    upload = upload_below;
    make_dir = make_dir;
    remove_dir = remove_dir;
  }

  unfoldable pub worker_executor : Executor
  worker_executor = caching_executor worker_seams

-- Every call of the libraries is good; `fit` is, if the callback is.
pub record AllGood (Good : (A : Type 0) → M A → Type 0) {Dataset Model Tokenizer : Type 0}
    (libraries : Libraries Dataset Model Tokenizer) : Type 1 where
  pub snapshot : (a b c : Text) → Good Text (libraries.hub.snapshot_download a b c)
  pub list : (p : Text) → Good (List (List Text)) (libraries.client.list_objects p)
  pub download : (k : Text) (p : LocalPath) → Good (Unit {0}) (libraries.client.download_file k p)
  pub upload : (p : LocalPath) (k : Text) → Good (Unit {0}) (libraries.client.upload_file p k)
  pub client_dir : (d : Text) → Good (Unit {0}) (libraries.client.make_dir d)
  pub client_parent : (p : LocalPath) → Good (Unit {0}) (libraries.client.make_parent p)
  pub look : (p : LocalPath) → Good Found (libraries.gpu.look p)
  pub load : (f : Text) (l : List LocalPath) → Good Dataset (libraries.gpu.load_dataset f l)
  pub pretrained :
      (p : Text) (n : ℕ) (b : Bool) → Good (Model × Tokenizer) (libraries.gpu.from_pretrained p n b)
  pub peft : (m : Model) (c : PeftConfig) → Good Model (libraries.gpu.get_peft_model m c)
  pub fit :
      (m : Model) (t : Tokenizer) (d : Dataset) (c : TrainConfig) (callback : M (Unit {0}))
      → Good (Unit {0}) callback
      → Good (Unit {0}) (libraries.gpu.fit m t d c callback)
  pub save_model : (m : Model) (o : Text) → Good (Unit {0}) (libraries.gpu.save_model m o)
  pub save_tokenizer :
      (t : Tokenizer) (o : Text) → Good (Unit {0}) (libraries.gpu.save_tokenizer t o)
  pub state_dir : (p : Text) → Good Text (libraries.gpu.make_dir p)
  pub drop_state : (d : Text) → Good (Unit {0}) (libraries.gpu.remove_dir d)
  pub files : (d : Text) → Good (List Text) (libraries.files_below d)
  pub temporary : (p : Text) → Good Text (libraries.make_dir p)
  pub drop_temporary : (d : Text) → Good (Unit {0}) (libraries.remove_dir d)
