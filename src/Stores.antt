-- ===== src/Stores.antt =====
-- ml-platform/worker/crucible_worker/dataset_store.py and checkpoint_store.py: a dataset or a
-- checkpoint between the bucket and the local disk. The S3 client and the making of directories are
-- parameters, on a state of their own. A local path is kept as it is put together.
pub mod Loops
pub mod Listing
pub mod Transfers
use krmed_cloud_services.Base.{
  Text, ℕ, Bool, true, false, not, List, [], ◌∷◌, ◌++◌, reverse, codes, length, drop, keep_if,
  is_empty, ◌==◌, if◌then◌else◌,
}
use krmed_cloud_services.Effects.{
  Exn, boto_error, checkpoint_empty, checkpoint_upload, dataset_missing, dataset_download,
  dataset_listing, Exec, pure, raise, ◌>>=◌, ◌>>◌, attempt,
}
use krmed_cloud_services.Schema.Uuid.{uuid_str}
use krmed_cloud_services.Paths.{name_of, rstrip}
use krmed_cloud_services.Validation.{is_single_file}

-- `local_dir`, or `local_dir / relative`
pub data LocalPath : Type 0 where
  directory : Text → LocalPath
  inside : Text → Text → LocalPath

-- The bucket is that of the store. A listing gives its keys page by page. The last two make a
-- directory, and the one above a path, with their parents.
pub record Client (S : Type 0) : Type 0 where
  pub list_objects : Text → Exec S (List (List Text))
  pub download_file : Text → LocalPath → Exec S (Unit {0})
  pub upload_file : LocalPath → Text → Exec S (Unit {0})
  pub make_dir : Text → Exec S (Unit {0})
  pub make_parent : LocalPath → Exec S (Unit {0})

-- `except (Boto3Error, BotoCoreError, ClientError) as exc: raise … from exc`
unfoldable pub translated : Exn → Exn → Exn
translated e boto_error = e
translated e x = x

unfoldable pub guarded : {S A : Type 0} → Exn → Exec S A → Exec S A
guarded e m = attempt m (λ x. raise (translated e x)) pure

-- `for x in xs: op x`
unfoldable pub for_each : {S A : Type 0} → (A → Exec S (Unit {0})) → List A → Exec S (Unit {0})
for_each op [] = pure tt
for_each op (x ∷ xs) = op x >> for_each op xs

abbrev head_is : ℕ → Text → Bool
head_is d [] = false
head_is d (c ∷ t) = c == d

-- `not key.endswith("/")`
unfoldable pub is_object : Text → Bool
is_object key = not (head_is b'/' (reverse key))

-- The keys of all pages that are objects.
unfoldable pub object_keys : List (List Text) → List Text
unfolding is_object
object_keys [] = []
object_keys (page ∷ pages) = keep_if is_object page ++ object_keys pages

abbrev pub as_prefix : Text → Text
as_prefix path = rstrip b'/' path ++ codes "/"

module _ {S : Type 0} (client : Client S) where
  -- `_list_keys`
  unfoldable pub list_keys : Text → Exec S (List Text)
  list_keys prefix = do
    pages ← guarded (dataset_listing prefix) (client.list_objects prefix)
    pure (object_keys pages)

  -- The body of the loop of `_download_prefix`.
  unfoldable pub fetch : Text → Text → Text → Exec S (Unit {0})
  fetch prefix local_dir key =
      let target = inside local_dir (drop (length prefix) key) in
      client.make_parent target >> guarded (dataset_download key) (client.download_file key target)

  abbrev pub fetch_all : Text → Text → List Text → Exec S LocalPath
  fetch_all prefix local_dir [] = raise (dataset_missing prefix)
  fetch_all prefix local_dir (key ∷ keys) =
      for_each (fetch prefix local_dir) (key ∷ keys) >> pure (directory local_dir)

  -- `_download_prefix`
  unfoldable pub download_prefix : Text → Text → Exec S LocalPath
  download_prefix path local_dir =
      list_keys (as_prefix path) >>= fetch_all (as_prefix path) local_dir

  -- `_download_file`
  unfoldable pub download_single : Text → Text → Exec S LocalPath
  download_single key local_dir =
      let target = inside local_dir (name_of key) in
      guarded (dataset_download key) (client.download_file key target) >> pure target

  -- `GarageDatasetStore.download`
  unfoldable pub download : Text → Text → Exec S LocalPath
  download dataset_path local_dir =
      client.make_dir local_dir
      >> (if is_single_file dataset_path
          then download_single dataset_path local_dir
          else download_prefix dataset_path local_dir)

  -- The body of the loop of `upload`, for a file by its path below the directory.
  unfoldable pub store : Text → Text → Text → Exec S (Unit {0})
  store prefix local_dir file =
      let key = prefix ++ file in
      guarded (checkpoint_upload key) (client.upload_file (inside local_dir file) key)

  abbrev pub store_all : Text → Text → Text → List Text → Exec S Text
  store_all id prefix local_dir [] = raise (checkpoint_empty id)
  store_all id prefix local_dir (file ∷ files) =
      for_each (store prefix local_dir) (file ∷ files) >> pure prefix

  -- `GarageCheckpointStore.upload`, by the sorted list of the files below the directory.
  unfoldable pub upload : ℕ → Text → List Text → Exec S Text
  upload job_id local_dir files =
      store_all (uuid_str job_id) (codes "checkpoints/" ++ (uuid_str job_id ++ codes "/")) local_dir
        files
