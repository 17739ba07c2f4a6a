-- ===== src/Tests/Training.antt =====
-- The trainer and the executor with its parts at concrete inputs.
use krmed_cloud_services.Base.{
  Text, ◌≡◌, ◌↔◌, refl, List, [], ◌∷◌, codes, some, false, is_empty, text_eq, contains, All, none,
  true,
}
use krmed_cloud_services.Effects.{ok, pure, ◌>>◌, attempt}
use krmed_cloud_services.World.{World}
use krmed_cloud_services.Stores.{LocalPath, inside, download, download_single, guarded}
use krmed_cloud_services.Paths.{suffix, rstrip, name_of, lower, lstrip}
use krmed_cloud_services.Validation.{
  validate_dataset_format, judge, detect_format, bare_suffix, is_single_file,
}
use krmed_cloud_services.Trainer.{is_dir, is_file, format_by_suffix, bare, dataset_load_spec}
use krmed_cloud_services.Trainer.Validated.{validated_loads}
use krmed_cloud_services.Trainer.Loading.{dataset_load_spec_iff}
use krmed_cloud_services.Executor.Whole.{Libraries}
use krmed_cloud_services.Stores.{Client}
use krmed_cloud_services.Repository.{ModelMeta}
use krmed_cloud_services.ModelCache
use krmed_cloud_services.Trainer
use krmed_cloud_services.Tests.Fixtures.{claimed}

abbrev files : List LocalPath
files = inside (codes "in") (codes "a.CSV") ∷ inside (codes "in") (codes "b.csv") ∷ []

dataset_load_spec_iff_example :
    (dataset_load_spec (inside (codes "in") []) (is_dir files) claimed
      ≡ (ok (codes "csv", files), claimed))
    ↔ ((is_empty files ≡ false) × All (λ p. format_by_suffix (bare p) ≡ some (codes "csv")) files)
dataset_load_spec_iff_example =
    dataset_load_spec_iff (inside (codes "in") []) files (codes "csv") claimed

-- Libraries that succeed at once.
abbrev libraries : Libraries (List Text) Text Text
libraries = record {
  hub = record { snapshot_download = λ repo revision cache. pure (codes "cache/m") };
  cache_dir = codes "cache";
  client = record {
    list_objects = λ prefix. pure [];
    download_file = λ key p. pure tt;
    upload_file = λ p key. pure tt;
    make_dir = λ dir. pure tt;
    make_parent = λ p. pure tt;
  };
  gpu = record {
    look = λ p. pure is_file;
    load_dataset = λ format files. pure (codes "text" ∷ []);
    column_names = λ dataset. dataset;
    from_pretrained = λ path n four_bit. pure (path, path);
    get_peft_model = λ model config. pure model;
    fit = λ model tokenizer dataset config callback. callback;
    save_model = λ model out. pure tt;
    save_tokenizer = λ tokenizer out. pure tt;
    make_dir = λ prefix. pure prefix;
    remove_dir = λ dir. pure tt;
  };
  files_below = λ dir. pure (codes "adapter.bin" ∷ []);
  make_dir = λ prefix. pure prefix;
  remove_dir = λ dir. pure tt;
}

-- The queue of the world stands for the bucket.
abbrev recording : Client World
recording = record {
  list_objects = λ prefix. pure [];
  download_file = λ key p. pure tt;
  upload_file = λ p key w. (ok tt, record w { queue = key ∷ w.queue });
  make_dir = λ dir. pure tt;
  make_parent = λ p. pure tt;
}

abbrev IsThere : LocalPath → Text → World → Type 0
IsThere p key w = contains key w.queue ≡ true

abbrev recorded : Libraries (List Text) Text Text
recorded = record libraries { client = recording }

abbrev small : ModelMeta
small = record {
  hf_repo_id = codes "m";
  revision = codes "r1";
  param_count = none;
  vram_hint = none;
}

validated_loads_example :
    dataset_load_spec (inside (codes "in") (codes "v.csv")) is_file claimed
    ≡ (ok (codes "csv", inside (codes "in") (codes "v.csv") ∷ []), claimed)
unfolding validate_dataset_format judge detect_format bare_suffix suffix contains text_eq pure
    download download_single guarded attempt is_single_file rstrip name_of ◌>>◌ lower lstrip
validated_loads_example =
    validated_loads libraries.client (codes "datasets/d/v.csv") (codes "in") (codes "csv") claimed
      claimed claimed (inside (codes "in") (codes "v.csv")) refl refl claimed
