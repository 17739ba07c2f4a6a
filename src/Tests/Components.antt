-- ===== src/Tests/Components.antt =====
-- The queue, the gates, the status hash, the settings and the scripts at concrete inputs.
use krmed_cloud_services.Base.{
  ◌≡◌, refl, ◌<◌, ◌≢◌, ◌↔◌, true, none, some, [], ◌∷◌, codes, count, text_eq, suc,
}
use krmed_cloud_services.Effects.{ok}
use krmed_cloud_services.World.{World}
use krmed_cloud_services.Queue.{claim, requeue}
use krmed_cloud_services.Queue.Order.{total, claim-total, drain, drain_fifo, requeue-count}
use krmed_cloud_services.Status.{hash_of, terminal_ttl_seconds, put_status, hash_of-put_status}
use krmed_cloud_services.Guardrail.{
  check_model_fits, vram_hint_for, tight_max_params, check_model_fits_iff, Fits,
}
use krmed_cloud_services.Tests.Fixtures.{dequeued, plain}
use krmed_cloud_services.Config.{Environ, Config, pos}
use krmed_cloud_services.Registry.{
  ModelTable, new_model, Draft, DatasetTable, DatasetStatus, pending_row,
}

abbrev environ : Environ
environ =
    (codes "DATABASE_URL", codes "d")
    ∷ (codes "REDIS_URL", codes "r")
    ∷ (codes "GARAGE_ENDPOINT", codes "e")
    ∷ (codes "GARAGE_ACCESS_KEY", codes "a")
    ∷ (codes "GARAGE_SECRET_KEY", codes "s")
    ∷ (codes "GARAGE_BUCKET", codes "b")
    ∷ (codes "CRUCIBLE_GPUS", codes "0, 1")
    ∷ []

abbrev settings_of : Config
settings_of = record {
  database_url = codes "d";
  redis_url = codes "r";
  garage_endpoint = codes "e";
  garage_access_key = codes "a";
  garage_secret_key = codes "s";
  garage_bucket = codes "b";
  model_cache_dir = codes "/var/crucible/models";
  queue_block_seconds = pos 5;
  visibility_timeout_seconds = pos 900;
  reconcile_interval_seconds = pos 300;
  orphan_grace_seconds = pos 60;
  gpu_ids = codes "0" ∷ codes "1" ∷ [];
}

abbrev models : ModelTable
models = record {
  rows =
      record (new_model 1 (codes "m") (codes "r1") (codes "M") none none) { is_default = true }
      ∷ [];
  next_id = 2;
}

abbrev draft : Draft
draft = record {
  name = codes "d";
  version = codes "v";
  storage_path = codes "datasets/d/v.csv";
  path_type = codes "object";
  size_bytes = 10;
  source_description = none;
}

abbrev no_datasets : DatasetTable
no_datasets = record { rows = []; next_id = 5 }

-- The content is registered under id 4.
abbrev with_status : DatasetStatus → DatasetTable
with_status status = record {
  rows = record (pending_row 4 draft) { status = status } ∷ [];
  next_id = 5;
}

claim-total_example : total (codes "b") (claim 5 dequeued).1 ≡ total (codes "b") dequeued
claim-total_example = claim-total 5 (codes "b") dequeued (refl, tt)

drain_fifo_example :
    (v : World) × (drain 5 2 plain ≡ (ok (some (codes "a") ∷ some (codes "b") ∷ []), v))
    × (v.queue ≡ [])
    × (v.processing ≡ codes "b" ∷ codes "a" ∷ [])
drain_fifo_example = drain_fifo 5 (codes "a" ∷ codes "b" ∷ []) plain refl refl

requeue-count_example :
    (v : World) × (requeue (codes "a") plain ≡ (ok tt, v))
    × (count (codes "a") v.queue ≡ suc (count (codes "a") plain.queue))
    × (count (codes "a") v.processing ≡ 0)
requeue-count_example = requeue-count (codes "a") plain refl

check_model_fits_iff_example :
    ((check_model_fits none (some (codes "unsupported")) plain ≡ (ok tt, plain))
      ↔ ((some (codes "unsupported") ≢ some (codes "unsupported")) × Fits none))
    × ((vram_hint_for (some 16000000000) ≡ some (codes "unsupported"))
        ↔ (tight_max_params < 16000000000))
check_model_fits_iff_example =
    check_model_fits_iff none (some (codes "unsupported")) 16000000000 plain

hash_of-put_status_example :
    hash_of (codes "a") (put_status (codes "a") (codes "completed") true plain)
    ≡ some
        (record { status = codes "completed"; updated_at = 100; ttl = some terminal_ttl_seconds })
unfolding text_eq
hash_of-put_status_example =
    hash_of-put_status (codes "a") (codes "a") (codes "completed") true plain
