-- ===== src/Tests/Fixtures.antt =====
-- Rows, jobs and worlds that the examples start from.
use krmed_cloud_services.Base.{Text, true, none, some, List, [], ◌∷◌, codes}
use krmed_cloud_services.Schema.{queued, running, Json, number, Job}
use krmed_cloud_services.Schema.Uuid.{uuid_str}
use krmed_cloud_services.World.{
  World, JobRow, ModelRow, Fault, reply_lost, killed_after, cancel, takes_last, moves_on, lives,
}
use krmed_cloud_services.Main.{LoopConfig}

abbrev pub hyperparameters : List (Text × Json)
hyperparameters =
    (codes "learning_rate", number (codes "2e-4"))
    ∷ (codes "epochs", number (codes "3"))
    ∷ (codes "batch_size", number (codes "1"))
    ∷ (codes "lora_rank", number (codes "16"))
    ∷ (codes "lora_alpha", number (codes "32"))
    ∷ []

abbrev pub row : JobRow
row = record {
  id = 7;
  status = queued;
  base_model = codes "m/m";
  dataset_path = codes "datasets/d/v.csv";
  hyperparameters = hyperparameters;
  checkpoint_path = none;
  error_message = none;
  created_at = 0;
  updated_at = 0;
}

abbrev pub model : ModelRow
model = record {
  hf_repo_id = codes "m/m";
  revision = codes "abc";
  param_count = some 7000000000;
  vram_hint = some (codes "comfortable");
  ready = true;
  is_default = true;
}

-- Job 7 is claimed, and nothing goes wrong.
abbrev pub claimed : World
claimed = record {
  jobs = row ∷ [];
  models = model ∷ [];
  queue = [];
  processing = uuid_str 7 ∷ [];
  hashes = [];
  now = 100;
  schedule = [];
}

abbrev pub job : Job
job = record {
  id = 7;
  status = queued;
  base_model = codes "m/m";
  dataset_path = codes "datasets/d/v.csv";
  hyperparameters = record {
    learning_rate = number (codes "2e-4");
    epochs = number (codes "3");
    batch_size = number (codes "1");
    lora_rank = number (codes "16");
    lora_alpha = number (codes "32");
  };
  checkpoint_path = none;
  error_message = none;
  created_at = 0;
  updated_at = 0;
}

-- The job has run for long with no heartbeat.
abbrev pub abandoned : World
abandoned = record claimed { jobs = record row { status = running } ∷ []; now = 2000 }

-- The job is queued and its id is nowhere.
abbrev pub orphaned : World
orphaned = record claimed { processing = [] }

-- The backend cancels the job before the second call, while another worker acts too, and the reply of the third is lost.
abbrev pub stormy : World
stormy = record claimed {
  schedule =
      record { elapsed = 1; others = []; fault = Fault.up }
      ∷ record {
        elapsed = 5;
        others = cancel 7 ∷ takes_last ∷ moves_on 7 lives ∷ [];
        fault = Fault.up;
      }
      ∷ record { elapsed = 1; others = []; fault = reply_lost }
      ∷ record { elapsed = 0; others = []; fault = killed_after }
      ∷ [];
}

abbrev pub settings : LoopConfig
settings = record {
  queue_block_seconds = 5;
  visibility_timeout_seconds = 900;
  orphan_grace_seconds = 60;
  reconcile_interval_seconds = 300;
}

-- The reply of the first call is lost.
abbrev pub dequeued : World
dequeued = record claimed {
  queue = codes "a" ∷ codes "b" ∷ [];
  schedule = record { elapsed = 1; others = []; fault = reply_lost } ∷ [];
}

abbrev pub plain : World
plain = record claimed { queue = codes "b" ∷ codes "a" ∷ []; processing = [] }

-- A row with no hyperparameters.
abbrev pub bare : JobRow
bare = record row { hyperparameters = [] }
