-- ===== src/Stores/Transfers.antt =====
-- A transfer that returns has moved every file.
use krmed_cloud_services.Base.{
  Text, ◌≡◌, refl, true, false, List, [], ◌∷◌, ◌++◌, length, drop, is_empty, All, contains,
}
use krmed_cloud_services.Effects.{ok, pure, raise}
use krmed_cloud_services.Effects.Rules.{
  Keeps, Keeps-then, after_ok, any_run, Triple-then, Triple-bind, Anything,
}
use krmed_cloud_services.Schema.{Job}
use krmed_cloud_services.Schema.Uuid.{starts_with}
use krmed_cloud_services.Executor.{checkpoint_prefix}
use krmed_cloud_services.Validation.{is_single_file}
use krmed_cloud_services.Stores.{
  Client, LocalPath, directory, inside, for_each, is_object, as_prefix, list_keys, fetch, fetch_all,
  download_prefix, download, store, upload,
}
use krmed_cloud_services.Stores.Loops.{
  Still, Still-order, Gets, for_each-Gets, guarded-Gets, guarded-Keeps,
}
use krmed_cloud_services.Stores.Listing.{Complete, contains-object_keys, contained}

-- What the stores rely on in an S3 client: a call that returns has moved its object, and no call
-- undoes what another one moved.
pub record Moves {S : Type 0} (client : Client S) (Here : LocalPath → Text → S → Type 0)
    (There : LocalPath → Text → S → Type 0) : Type 0 where
  pub fetched : (key : Text) (p : LocalPath) → Gets (client.download_file key p) (λ _. Here p key)
  pub fetched_stays :
      (key other : Text) (p q : LocalPath)
      → Keeps (Still (Here q other)) (client.download_file key p)
  pub made_stays :
      (other : Text) (p q : LocalPath) → Keeps (Still (Here q other)) (client.make_parent p)
  pub stored : (key : Text) (p : LocalPath) → Gets (client.upload_file p key) (λ _. There p key)
  pub stored_stays :
      (key other : Text) (p q : LocalPath)
      → Keeps (Still (There q other)) (client.upload_file p key)

-- What they rely on in a listing: it gives the keys of the bucket that start with the prefix.
pub record Lists {S : Type 0} (client : Client S) (bucket : List Text) : Type 0 where
  pub listed :
      (prefix : Text) → Gets (client.list_objects prefix) (λ pages s. Complete bucket prefix pages)

module _ {S : Type 0} (client : Client S) (Here There : LocalPath → Text → S → Type 0)
    (moves : Moves client Here There) where
  abbrev Uploaded : Text → Text → Text → S → Type 0
  Uploaded prefix dir file = There (inside dir file) (prefix ++ file)

  store_files-Gets :
      (prefix dir : Text) (files : List Text)
      → Gets
          (for_each (store client prefix dir) files)
          (λ _ s. All (λ f. Uploaded prefix dir f s) files)
  unfolding store
  store_files-Gets prefix dir =
      for_each-Gets (Uploaded prefix dir) (store client prefix dir)
        (λ f. guarded-Gets _ _ (moves.stored (prefix ++ f) (inside dir f)))
        (λ f g.
          guarded-Keeps _ _
            (moves.stored_stays (prefix ++ f) (prefix ++ g) (inside dir f) (inside dir g)))

  pub upload-Gets :
      (job : Job) (dir : Text) (files : List Text)
      → Gets (upload client job.id dir files) (λ path s.
        (path ≡ checkpoint_prefix job)
        × (is_empty files ≡ false)
        × All (λ f. Uploaded path dir f s) files)
  unfolding upload checkpoint_prefix raise pure
  upload-Gets job dir [] = record { at = λ s h. tt }
  upload-Gets job dir (f ∷ fs) =
      Triple-then (λ s. All (λ x. Uploaded (checkpoint_prefix job) dir x s) (f ∷ fs)) _ _
        (store_files-Gets (checkpoint_prefix job) dir (f ∷ fs))
        (record { at = λ s h. (refl, refl, h) })

  abbrev Downloaded : Text → Text → Text → S → Type 0
  Downloaded prefix dir key = Here (inside dir (drop (length prefix) key)) key

  fetch-Gets :
      (prefix dir key : Text) → Gets (fetch client prefix dir key) (λ _. Downloaded prefix dir key)
  unfolding fetch
  fetch-Gets prefix dir key =
      Triple-then Anything _ _ (any_run _) (guarded-Gets _ _ (moves.fetched key _))

  fetch-Keeps :
      (prefix dir key other : Text)
      → Keeps (Still (Downloaded prefix dir other)) (fetch client prefix dir key)
  unfolding fetch
  fetch-Keeps prefix dir key other =
      Keeps-then (Still-order (Downloaded prefix dir other)) _ _ (moves.made_stays other _ _)
        (guarded-Keeps _ _ (moves.fetched_stays key other _ _))

  -- Every object below the prefix is on the disk.
  abbrev IsOnDisk : List Text → Text → Text → S → Type 0
  IsOnDisk bucket prefix dir s =
      (key : Text)
      → contains key bucket ≡ true
      → starts_with prefix key ≡ true
      → is_object key ≡ true
      → Downloaded prefix dir key s

  module _ (bucket : List Text) (lists : Lists client bucket) where
    abbrev Covers : Text → List Text → Type 0
    Covers prefix keys =
        (key : Text)
        → contains key bucket ≡ true
        → starts_with prefix key ≡ true
        → is_object key ≡ true
        → contains key keys ≡ true

    list_keys-Covers :
        (prefix : Text) → Gets (list_keys client prefix) (λ keys _. Covers prefix keys)
    unfolding list_keys pure
    list_keys-Covers prefix =
        Triple-bind (λ pages _. Complete bucket prefix pages) _ _
          (guarded-Gets _ _ (lists.listed prefix))
          (λ pages. record {
            at = λ s complete key there under object.
                contains-object_keys key pages (complete key there under) object;
          })

    fetch_all-Gets :
        (prefix dir : Text) (keys : List Text)
        → Covers prefix keys
        → Gets
            (fetch_all client prefix dir keys)
            (λ p s. (p ≡ directory dir) × IsOnDisk bucket prefix dir s)
    unfolding raise pure
    fetch_all-Gets prefix dir [] covers = record { at = λ s h. tt }
    fetch_all-Gets prefix dir (k ∷ ks) covers =
        Triple-then (λ s. All (λ key. Downloaded prefix dir key s) (k ∷ ks)) _ _
          (for_each-Gets (Downloaded prefix dir) (fetch client prefix dir) (fetch-Gets prefix dir)
            (fetch-Keeps prefix dir) (k ∷ ks))
          (record {
            at = λ s all. (
              refl,
              λ key there under object.
                  contained (λ x. Downloaded prefix dir x s) key (k ∷ ks) all
                    (covers key there under object),
            );
          })

    download_prefix-Gets :
        (path dir : Text)
        → Gets
            (download_prefix client path dir)
            (λ p s. (p ≡ directory dir) × IsOnDisk bucket (as_prefix path) dir s)
    unfolding download_prefix
    download_prefix-Gets path dir =
        Triple-bind (λ keys _. Covers (as_prefix path) keys) _ _ (list_keys-Covers (as_prefix path))
          (λ keys. record {
            at = λ s covers. (fetch_all-Gets (as_prefix path) dir keys covers).at s tt;
          })

    download-Gets :
        (path dir : Text)
        → is_single_file path ≡ false
        → Gets
            (download client path dir)
            (λ p s. (p ≡ directory dir) × IsOnDisk bucket (as_prefix path) dir s)
    unfolding download
    download-Gets path dir many =
        Triple-then Anything _ _ (any_run _) (rw many (download_prefix-Gets path dir))

-- Over a client whose calls move their object when they return, and undo none: a checkpoint upload
-- that returns gives the prefix that the executor names for the job; the
-- directory had a file in it, and every file of it is in the bucket under that prefix.
pub upload_complete :
    {S : Type 0} (client : Client S) (Here There : LocalPath → Text → S → Type 0)
    → Moves client Here There
    → (job : Job) (dir : Text) (files : List Text) (s t : S) (path : Text)
    → upload client job.id dir files s ≡ (ok path, t)
    → (path ≡ checkpoint_prefix job)
      × (is_empty files ≡ false)
      × All (λ f. There (inside dir f) (path ++ f) t) files
upload_complete client Here There moves job dir files s t path e =
    after_ok _ _ path t ((upload-Gets client Here There moves job dir files).at s tt) e

-- Over a client whose calls move their object when they return, and undo none, and whose listing
-- gives every key of the bucket under a prefix: a download of
-- a dataset path that is no single file, if it returns, gives the local directory, and
-- every object of the bucket under the path's prefix is on the disk, at the rest of its key.
pub download_complete :
    {S : Type 0} (client : Client S) (Here There : LocalPath → Text → S → Type 0)
    → Moves client Here There
    → (bucket : List Text) → Lists client bucket
    → (path dir : Text) (s t : S) (p : LocalPath) → is_single_file path ≡ false
    → download client path dir s ≡ (ok p, t)
    → (p ≡ directory dir)
      × ((key : Text)
          → contains key bucket ≡ true
          → starts_with (as_prefix path) key ≡ true
          → is_object key ≡ true
          → Here (inside dir (drop (length (as_prefix path)) key)) key t)
download_complete client Here There moves bucket lists path dir s t p many e =
    after_ok _ _ p t ((download-Gets client Here There moves bucket lists path dir many).at s tt) e
