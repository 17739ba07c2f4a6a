-- ===== src/Executor/Good.antt =====
-- What holds of every call of the libraries, and is kept by each way to build code, holds of the
-- worker's executor.
use krmed_cloud_services.Base.{Text, ℕ, List, [], ◌∷◌}
use krmed_cloud_services.Effects.{Exn, pure}
use krmed_cloud_services.Effects.Closed.{Closed, good_then, good_if}
use krmed_cloud_services.Schema.{Job}
use krmed_cloud_services.World.{World, M}
use krmed_cloud_services.Repository.{ModelMeta}
use krmed_cloud_services.ModelCache
use krmed_cloud_services.ModelCache.{Hub}
use krmed_cloud_services.Stores
use krmed_cloud_services.Stores.{
  Client, LocalPath, directory, guarded, for_each, list_keys, fetch, fetch_all, download_prefix,
  download_single, store, store_all, object_keys, as_prefix,
}
use krmed_cloud_services.Trainer
use krmed_cloud_services.Trainer.{
  Gpu, Found, TrainConfig, default_max_seq_length, resolve_text_field, dataset_load_spec, spec_of,
  single, all_known, fit_in, is_dir, is_file, is_missing, suffixes, unknown, formats,
}
use krmed_cloud_services.Executor.{ExecutionResult, with_temporary, caching_executor}
use krmed_cloud_services.Validation.{is_single_file}
use krmed_cloud_services.Executor.Whole.{
  Libraries, AllGood, upload_below, worker_seams, worker_executor,
}

module _ (Good : (A : Type 0) → M A → Type 0) (closed : Closed {S = World} Good) where
  guarded_good : (A : Type 0) (e : Exn) (m : M A) → Good A m → Good A (guarded e m)
  unfolding guarded
  guarded_good A e m g =
      closed.of_attempt A A m _ pure g (λ x. closed.of_raise A _) (λ a. closed.of_pure A a)

  for_each_good :
      (A : Type 0) (op : A → M (Unit {0})) (xs : List A)
      → ((x : A) → Good (Unit {0}) (op x))
      → Good (Unit {0}) (for_each op xs)
  unfolding for_each
  for_each_good A op [] g = closed.of_pure (Unit {0}) tt
  for_each_good A op (x ∷ xs) g =
      good_then Good closed (Unit {0}) _ _ (g x) (for_each_good A op xs g)

  single_good :
      (fs : List Text) (files : List LocalPath) → Good (Text × List LocalPath) (single fs files)
  single_good [] files = closed.of_raise _ _
  single_good (f ∷ []) files = closed.of_pure _ _
  single_good (f ∷ g ∷ more) files = closed.of_raise _ _

  known_good :
      (u found : List Text) (files : List LocalPath)
      → Good (Text × List LocalPath) (all_known u found files)
  known_good [] found files = single_good (formats found) files
  known_good (s ∷ ss) found files = closed.of_raise _ _

  spec_good : (files : List LocalPath) → Good (Text × List LocalPath) (spec_of files)
  unfolding spec_of
  spec_good [] = closed.of_raise _ _
  spec_good (p ∷ ps) = known_good (unknown (suffixes (p ∷ ps))) (suffixes (p ∷ ps)) (p ∷ ps)

  load_spec_good :
      (p : LocalPath) (found : Found) → Good (Text × List LocalPath) (dataset_load_spec p found)
  unfolding dataset_load_spec
  load_spec_good p (is_dir files) = spec_good files
  load_spec_good p is_file = spec_good (p ∷ [])
  load_spec_good p is_missing = closed.of_raise _ _

  module _ {Dataset Model Tokenizer : Type 0} (libraries : Libraries Dataset Model Tokenizer)
      (all : AllGood Good libraries) where
    ensure_good :
        (model : ModelMeta) → Good Text (ModelCache.ensure libraries.hub libraries.cache_dir model)
    unfolding ModelCache.ensure
    ensure_good model =
        closed.of_attempt Text Text _ _ pure (all.snapshot _ _ _) (λ e. closed.of_raise Text _)
          (λ a. closed.of_pure Text a)

    fetch_good : (prefix dir key : Text) → Good (Unit {0}) (fetch libraries.client prefix dir key)
    unfolding fetch
    fetch_good prefix dir key =
        good_then Good closed (Unit {0}) _ _ (all.client_parent _)
          (guarded_good (Unit {0}) _ _ (all.download key _))

    fetch_all_good :
        (prefix dir : Text) (keys : List Text)
        → Good LocalPath (fetch_all libraries.client prefix dir keys)
    fetch_all_good prefix dir [] = closed.of_raise LocalPath _
    fetch_all_good prefix dir (k ∷ ks) =
        good_then Good closed LocalPath _ _
          (for_each_good Text (fetch libraries.client prefix dir) (k ∷ ks) (fetch_good prefix dir))
          (closed.of_pure LocalPath _)

    download_prefix_good :
        (path dir : Text) → Good LocalPath (download_prefix libraries.client path dir)
    unfolding download_prefix list_keys
    download_prefix_good path dir =
        closed.of_bind (List Text) LocalPath _ _
          (closed.of_bind (List (List Text)) (List Text) _ _
            (guarded_good (List (List Text)) _ _ (all.list (as_prefix path)))
            (λ pages. closed.of_pure (List Text) _))
          (fetch_all_good (as_prefix path) dir)

    download_good : (path dir : Text) → Good LocalPath (Stores.download libraries.client path dir)
    unfolding Stores.download download_single
    download_good path dir = good_then Good closed LocalPath _ _ (all.client_dir dir) (
        good_if Good closed LocalPath (is_single_file path) _ _
          (good_then Good closed LocalPath _ _ (guarded_good (Unit {0}) _ _ (all.download path _))
            (closed.of_pure LocalPath _))
          (download_prefix_good path dir))

    store_good : (prefix dir file : Text) → Good (Unit {0}) (store libraries.client prefix dir file)
    unfolding store
    store_good prefix dir file = guarded_good (Unit {0}) _ _ (all.upload _ _)

    store_all_good :
        (id prefix dir : Text) (files : List Text)
        → Good Text (store_all libraries.client id prefix dir files)
    store_all_good id prefix dir [] = closed.of_raise Text _
    store_all_good id prefix dir (f ∷ fs) =
        good_then Good closed Text _ _
          (for_each_good Text (store libraries.client prefix dir) (f ∷ fs) (store_good prefix dir))
          (closed.of_pure Text _)

    upload_good : (id : ℕ) (dir : Text) → Good Text (upload_below libraries id dir)
    unfolding upload_below Stores.upload
    upload_good id dir =
        closed.of_bind (List Text) Text _ _ (all.files dir) (λ files. store_all_good _ _ dir files)

    column_good : (columns : List Text) → Good Text (resolve_text_field columns)
    unfolding resolve_text_field
    column_good columns =
        good_if Good closed Text _ _ _ (closed.of_pure Text _) (closed.of_raise Text _)

    train_good :
        (job : Job) (model : Text) (dataset : LocalPath) (out : Text) (heartbeat : M (Unit {0}))
        → Good (Unit {0}) heartbeat
        → Good
            (Unit {0})
            (Trainer.train libraries.gpu default_max_seq_length job model dataset out heartbeat)
    unfolding Trainer.train fit_in
    train_good job model dataset out heartbeat beats =
        let and_then = λ (m k : M (Unit {0})). good_then Good closed (Unit {0}) m k in
        closed.of_bind Found (Unit {0}) _ _ (all.look dataset) (λ found.
          closed.of_bind (Text × List LocalPath) (Unit {0}) _ _ (load_spec_good dataset found)
            (λ spec. closed.of_bind Dataset (Unit {0}) _ _ (all.load _ _) (λ data'.
              closed.of_bind Text (Unit {0}) _ _ (column_good _) (λ field. and_then _ _ beats (
                closed.of_bind (Model × Tokenizer) (Unit {0}) _ _ (all.pretrained model _ _)
                  (λ loaded. closed.of_bind Model (Unit {0}) _ _ (all.peft _ _) (λ tuned.
                    and_then _ _ beats (
                      closed.of_bind Text (Unit {0}) _ _ (all.state_dir _) (λ dir.
                        and_then _ _
                          (closed.of_finally (Unit {0}) _ _ (all.fit _ _ _ _ heartbeat beats)
                            (all.drop_state dir))
                          (and_then _ _ (all.save_model _ _)
                            (and_then _ _ (all.save_tokenizer _ _) beats)))))))))))

    with_temporary_good :
        (A : Type 0) (prefix : Text) (body : Text → M A)
        → ((dir : Text) → Good A (body dir))
        → Good A (with_temporary (worker_seams libraries) prefix body)
    unfolding with_temporary worker_seams
    with_temporary_good A prefix body g =
        closed.of_bind Text A _ _ (all.temporary prefix)
          (λ dir. closed.of_finally A _ _ (g dir) (all.drop_temporary dir))

    pub executor_good :
        (job : Job) (model : ModelMeta) (heartbeat : M (Unit {0}))
        → Good (Unit {0}) heartbeat
        → Good ExecutionResult (worker_executor libraries job model heartbeat)
    unfolding worker_executor caching_executor worker_seams
    executor_good job model heartbeat beats =
        closed.of_bind Text ExecutionResult _ _ (ensure_good model) (λ path.
          good_then Good closed ExecutionResult _ _ beats (
            closed.of_bind Text ExecutionResult _ _
              (with_temporary_good Text _ _ (λ data_tmp. with_temporary_good Text _ _ (λ out_tmp.
                closed.of_bind LocalPath Text _ _ (download_good job.dataset_path data_tmp)
                  (λ dataset. good_then Good closed Text _ _ beats (
                    good_then Good closed Text _ _
                      (train_good job path dataset out_tmp heartbeat beats)
                      (upload_good job.id out_tmp))))))
              (λ result. closed.of_pure ExecutionResult _)))
