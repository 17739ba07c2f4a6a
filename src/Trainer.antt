-- ===== src/Trainer.antt =====
-- ml-platform/worker/crucible_worker/trainer.py: what a local dataset is loaded as, and the order of
-- the fine-tune. The GPU stack and the look at the file system are parameters.
pub mod Loading
pub mod Validated
use krmed_cloud_services.Base.{
  Text, ℕ, Bool, true, false, Option, none, some, List, [], ◌∷◌, ◌++◌, codes, contains, text_eq,
  is_empty, if◌then◌else◌,
}
use krmed_cloud_services.Effects.{
  Exn, trainer_error, no_text_column, no_such_path, no_dataset_files, unknown_extensions,
  mixed_formats, Exec, pure, raise, ◌>>=◌, ◌>>◌, finally,
}
use krmed_cloud_services.Schema.{Job, Json}
use krmed_cloud_services.Schema.Uuid.{uuid_str}
use krmed_cloud_services.Paths.{lower, lstrip, suffix, name_of}
use krmed_cloud_services.Stores.{LocalPath, directory, inside}

abbrev pub text_field : Text
text_field = codes "text"

-- `resolve_text_field`
unfoldable pub resolve_text_field : {S : Type 0} → List Text → Exec S Text
unfolding contains text_eq
resolve_text_field column_names =
    if contains text_field column_names
    then pure text_field
    else raise (trainer_error (no_text_column column_names))

-- `_FORMAT_BY_SUFFIX`
unfoldable pub format_by_suffix : Text → Option Text
unfolding text_eq
format_by_suffix s =
    if text_eq s (codes "csv")
    then some (codes "csv")
    else if text_eq s (codes "json")
    then some (codes "json")
    else if text_eq s (codes "jsonl")
    then some (codes "json")
    else if text_eq s (codes "parquet")
    then some (codes "parquet")
    else none

-- `path.suffix` of a path that was put together from two.
unfoldable pub path_suffix : LocalPath → Text
path_suffix (directory dir) = suffix dir
path_suffix (inside dir relative) =
    if is_empty (name_of relative) then suffix dir else suffix relative

-- `p.suffix.lower().lstrip(".")`
unfoldable pub bare : LocalPath → Text
unfolding path_suffix
bare p = lstrip b'.' (lower (path_suffix p))

-- What stands at a path: the sorted files below a directory, a file, or nothing.
pub data Found : Type 0 where
  is_dir : List LocalPath → Found
  is_file : Found
  is_missing : Found

-- A set is a list in which each element stands once.
unfoldable pub add : Text → List Text → List Text
add x xs = if contains x xs then xs else x ∷ xs

unfoldable pub suffixes : List LocalPath → List Text
suffixes [] = []
suffixes (p ∷ ps) = add (bare p) (suffixes ps)

-- `suffixes - _FORMAT_BY_SUFFIX.keys()`
abbrev with_unknown : Option Text → Text → List Text → List Text
with_unknown none s rest = s ∷ rest
with_unknown (some f) s rest = rest

unfoldable pub unknown : List Text → List Text
unknown [] = []
unknown (s ∷ ss) = with_unknown (format_by_suffix s) s (unknown ss)

-- `{_FORMAT_BY_SUFFIX[s] for s in suffixes}`, of suffixes that are all known
abbrev with_format : Option Text → List Text → List Text
with_format none rest = rest
with_format (some f) rest = add f rest

unfoldable pub formats : List Text → List Text
formats [] = []
formats (s ∷ ss) = with_format (format_by_suffix s) (formats ss)

module _ {S : Type 0} where
  -- The last test: exactly one format.
  abbrev pub single : List Text → List LocalPath → Exec S (Text × List LocalPath)
  single [] files = raise (trainer_error (mixed_formats []))
  single (f ∷ []) files = pure (f, files)
  single (f ∷ g ∷ more) files = raise (trainer_error (mixed_formats (f ∷ g ∷ more)))

  abbrev pub all_known : List Text → List Text → List LocalPath → Exec S (Text × List LocalPath)
  all_known [] found files = single (formats found) files
  all_known (s ∷ ss) found files = raise (trainer_error (unknown_extensions (s ∷ ss)))

  -- The part of `dataset_load_spec` from the list of files on.
  unfoldable pub spec_of : List LocalPath → Exec S (Text × List LocalPath)
  spec_of [] = raise (trainer_error no_dataset_files)
  spec_of (p ∷ ps) = let found = suffixes (p ∷ ps) in all_known (unknown found) found (p ∷ ps)

  -- `dataset_load_spec`
  unfoldable pub dataset_load_spec : LocalPath → Found → Exec S (Text × List LocalPath)
  unfolding spec_of
  dataset_load_spec path (is_dir files) = spec_of files
  dataset_load_spec path is_file = spec_of (path ∷ [])
  dataset_load_spec path is_missing = raise (trainer_error no_such_path)

abbrev pub default_max_seq_length : ℕ
default_max_seq_length = 2048

abbrev pub target_modules : List Text
target_modules =
    codes "q_proj"
    ∷ codes "k_proj"
    ∷ codes "v_proj"
    ∷ codes "o_proj"
    ∷ codes "gate_proj"
    ∷ codes "up_proj"
    ∷ codes "down_proj"
    ∷ []

abbrev pub seed : ℕ
seed = 3407

-- The arguments of `get_peft_model`.
pub record PeftConfig : Type 0 where
  pub r : Json
  pub lora_alpha : Json
  pub target_modules : List Text
  pub lora_dropout : ℕ
  pub bias : Text
  pub use_gradient_checkpointing : Text
  pub random_state : ℕ
  pub max_seq_length : ℕ

-- The arguments of `SFTConfig`.
pub record TrainConfig : Type 0 where
  pub dataset_text_field : Text
  pub max_seq_length : ℕ
  pub per_device_train_batch_size : Json
  pub gradient_accumulation_steps : ℕ
  pub num_train_epochs : Json
  pub learning_rate : Json
  pub logging_steps : ℕ
  pub optim : Text
  pub bf16 : Bool
  pub seed : ℕ
  pub output_dir : Text
  pub save_strategy : Text
  pub report_to : Text
  pub dataset_num_proc : ℕ

abbrev pub peft_config : Job → ℕ → PeftConfig
peft_config job max_seq_length = record {
  r = job.hyperparameters.lora_rank;
  lora_alpha = job.hyperparameters.lora_alpha;
  target_modules = target_modules;
  lora_dropout = 0;
  bias = codes "none";
  use_gradient_checkpointing = codes "unsloth";
  random_state = seed;
  max_seq_length = max_seq_length;
}

abbrev pub train_config : Job → ℕ → Text → Text → TrainConfig
train_config job max_seq_length field state_dir = record {
  dataset_text_field = field;
  max_seq_length = max_seq_length;
  per_device_train_batch_size = job.hyperparameters.batch_size;
  gradient_accumulation_steps = 1;
  num_train_epochs = job.hyperparameters.epochs;
  learning_rate = job.hyperparameters.learning_rate;
  logging_steps = 1;
  optim = codes "adamw_8bit";
  bf16 = true;
  seed = seed;
  output_dir = state_dir;
  save_strategy = codes "no";
  report_to = codes "none";
  dataset_num_proc = 1;
}

-- The GPU stack, over its own datasets, models and tokenizers; `fit` calls back after each step; the flag of
-- `from_pretrained` is load_in_4bit.
pub record Gpu (S Dataset Model Tokenizer : Type 0) : Type 0 where
  pub look : LocalPath → Exec S Found
  pub load_dataset : Text → List LocalPath → Exec S Dataset
  pub column_names : Dataset → List Text
  pub from_pretrained : Text → ℕ → Bool → Exec S (Model × Tokenizer)
  pub get_peft_model : Model → PeftConfig → Exec S Model
  pub fit : Model → Tokenizer → Dataset → TrainConfig → Exec S (Unit {0}) → Exec S (Unit {0})
  pub save_model : Model → Text → Exec S (Unit {0})
  pub save_tokenizer : Tokenizer → Text → Exec S (Unit {0})
  pub make_dir : Text → Exec S Text
  pub remove_dir : Text → Exec S (Unit {0})

module _ {S Dataset Model Tokenizer : Type 0} (gpu : Gpu S Dataset Model Tokenizer) where
  -- The `with` block around the trainer.
  unfoldable pub fit_in :
      ℕ → Job → Model → Tokenizer → Dataset → Text → Exec S (Unit {0}) → Text → Exec S (Unit {0})
  fit_in max_seq_length job model tokenizer dataset field heartbeat state_dir =
      finally
        (gpu.fit model tokenizer dataset (train_config job max_seq_length field state_dir)
          heartbeat)
        (gpu.remove_dir state_dir)

  -- `UnslothQLoRATrainer.train`
  unfoldable pub train : ℕ → Job → Text → LocalPath → Text → Exec S (Unit {0}) → Exec S (Unit {0})
  train max_seq_length job model_path dataset_path output_dir heartbeat = do
    found ← gpu.look dataset_path
    spec ← dataset_load_spec dataset_path found
    dataset ← gpu.load_dataset spec.0 spec.1
    field ← resolve_text_field (gpu.column_names dataset)
    heartbeat
    loaded ← gpu.from_pretrained model_path max_seq_length true
    model ← gpu.get_peft_model loaded.0 (peft_config job max_seq_length)
    heartbeat
    state_dir ← gpu.make_dir (codes "crucible-train-" ++ (uuid_str job.id ++ codes "-"))
    fit_in max_seq_length job model loaded.1 dataset field heartbeat state_dir
    gpu.save_model model output_dir
    gpu.save_tokenizer loaded.1 output_dir
    heartbeat
