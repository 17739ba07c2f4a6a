-- ===== src/ModelCache.antt =====
-- ml-platform/worker/crucible_worker/model_cache.py: the snapshot of a base model, over the
-- download of huggingface_hub as a parameter.
use krmed_cloud_services.Base.{Text}
use krmed_cloud_services.Effects.{Exn, hub_error, model_cache_error, Exec, pure, raise, attempt}
use krmed_cloud_services.Repository.{ModelMeta}

-- `snapshot_download`, by the repository, the revision and the directory of the cache.
pub record Hub (S : Type 0) : Type 0 where
  pub snapshot_download : Text → Text → Text → Exec S Text

-- `except HfHubHTTPError as exc: raise ModelCacheError(…) from exc`
unfoldable pub of_hub : ModelMeta → Exn → Exn
of_hub model hub_error = model_cache_error model.hf_repo_id model.revision
of_hub model e = e

-- `HFModelCache.ensure`
unfoldable pub ensure : {S : Type 0} → Hub S → Text → ModelMeta → Exec S Text
ensure hub cache_dir model =
    attempt (hub.snapshot_download model.hf_repo_id model.revision cache_dir)
      (λ e. raise (of_hub model e)) pure
