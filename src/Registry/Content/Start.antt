-- ===== src/Registry/Content/Start.antt =====
-- ml-platform/scripts/register_dataset.py: `main` before the checksum: the environment, the local
-- path, and the S3 client, which boto3 makes of four variables. The file system is a parameter: where
-- a path leads, and what is there.
use krmed_cloud_services.Base.{
  Text, ℕ, ◌≡◌, refl, ap, ◌∙◌, true, Option, none, some, List, [], ◌∷◌, codes, find,
}
use krmed_cloud_services.Effects.{Exec}
use krmed_cloud_services.Config.{Environ, get, missing_keys, or_blank}
use krmed_cloud_services.Stores.{Client}
use krmed_cloud_services.Registry.{DatasetRow, DatasetTable, same_dataset}
use krmed_cloud_services.Registry.Datasets.{IsFresh}
use krmed_cloud_services.Registry.Content.Upload.{Shows}
use krmed_cloud_services.Registry.Content.{Hash, Source, checksum_of}
use krmed_cloud_services.Registry.Content.Script.{
  End, register_source, Leaves, draft_of, unreserved, is_unready, register_source-Leaves,
}

-- `REQUIRED_ENV`
abbrev pub dataset_env : List Text
dataset_env =
    codes "GARAGE_ENDPOINT"
    ∷ codes "GARAGE_ACCESS_KEY"
    ∷ codes "GARAGE_SECRET_KEY"
    ∷ codes "GARAGE_BUCKET"
    ∷ codes "DATABASE_URL"
    ∷ []

-- How `main` ends: by `sys.exit(1)` in two places, or as the rest of it does.
pub data Exit : Type 0 where
  lacks_variables : List Text → Exit
  no_such_path : Text → Exit
  went_on : End → Exit

-- The client with the call that verifies an upload.
pub record Bucket (S : Type 0) : Type 0 where
  pub client : Client S
  pub head_object : Text → Exec S (Unit {0})

-- `env[key]`, of a variable that is there.
abbrev value : Environ → Text → Text
value env key = or_blank (get env key)

abbrev went : {S : Type 0} → Option (End × (DatasetTable × S)) → Option (Exit × (DatasetTable × S))
went none = none
went (some (e, after)) = some (went_on e, after)

module _ {H S : Type 0} (hash : Hash H) (encode : Text → List ℕ)
    (connect : Text → Text → Text → Text → Bucket S) (resolve : Text → Text)
    (look : Text → Option Source) where
  abbrev pub with_source :
      Environ
      → Text
      → Text
      → Option Text
      → Option Source
      → DatasetTable
      → S
      → Option (Exit × (DatasetTable × S))
  with_source env local_path name description none t s = some (no_such_path local_path, (t, s))
  with_source env local_path name description (some source) t s =
      let bucket =
        connect (value env (codes "GARAGE_ENDPOINT")) (value env (codes "GARAGE_ACCESS_KEY"))
          (value env (codes "GARAGE_SECRET_KEY")) (value env (codes "GARAGE_BUCKET")) in
      went (
        register_source hash encode bucket.client bucket.head_object local_path name description
          source t s)

  -- `check_env`, with what follows when no variable is missing.
  abbrev pub after_env :
      List Text
      → Environ
      → Text
      → Text
      → Option Text
      → DatasetTable
      → S
      → Option (Exit × (DatasetTable × S))
  after_env [] env local_path name description t s =
      with_source env (resolve local_path) name description (look (resolve local_path)) t s
  after_env (k ∷ ks) env local_path name description t s = some (lacks_variables (k ∷ ks), (t, s))

  -- `main`, after the command line; `none` means that the fuel of the checksum ran out.
  unfoldable pub register_dataset_main :
      Environ → Text → Text → Option Text → DatasetTable → S → Option (Exit × (DatasetTable × S))
  register_dataset_main env local_path name description t s =
      after_env (missing_keys env dataset_env) env local_path name description t s

-- What `main` leaves when it ends: what it found, when it ends before the checksum.
abbrev pub LeavesAll :
    {S : Type 0}
    → (End × (DatasetTable × S) → Type 0)
    → DatasetTable
    → S
    → Exit × (DatasetTable × S)
    → Type 0
LeavesAll Rest t s (lacks_variables ks, (u, v)) = (u ≡ t) × (v ≡ s)
LeavesAll Rest t s (no_such_path p, (u, v)) = (u ≡ t) × (v ≡ s)
LeavesAll Rest t s (went_on e, after) = Rest (e, after)

module _ {H S : Type 0} (hash : Hash H) (encode : Text → List ℕ)
    (connect : Text → Text → Text → Text → Bucket S) (resolve : Text → Text)
    (look : Text → Option Source) (Stored : Text → S → Type 0)
    (shows : (a b c d : Text) → Shows (connect a b c d).client (connect a b c d).head_object Stored)
    (env : Environ) (path name version : Text) (description : Option Text) (source : Source)
    (old : Option DatasetRow) (t : DatasetTable) (s : S) where
  abbrev Rest : End × (DatasetTable × S) → Type 0
  Rest =
      Leaves Stored (draft_of name version description source) source t.next_id
        (unreserved old t.rows)

  started :
      (missing : List Text) (o : Option Source)
      → ((src : Source) → o ≡ some src → src ≡ source)
      → look (resolve path) ≡ o
      → checksum_of hash encode source ≡ some version
      → IsFresh t
      → find (same_dataset name version) t.rows ≡ old
      → is_unready old ≡ true
      → (r : Exit × (DatasetTable × S)) × (after_env hash encode connect resolve look missing env
            path name description t s
          ≡ some r)
        × LeavesAll Rest t s r
  started (k ∷ ks) o only there sum fresh found unready =
      ((lacks_variables (k ∷ ks), (t, s)), refl, (refl, refl))
  started [] none only there sum fresh found unready =
      ((no_such_path (resolve path), (t, s)), rw there refl, (refl, refl))
  started [] (some src) only there sum fresh found unready =
      let bucket =
        connect (value env (codes "GARAGE_ENDPOINT")) (value env (codes "GARAGE_ACCESS_KEY"))
          (value env (codes "GARAGE_SECRET_KEY")) (value env (codes "GARAGE_BUCKET")) in
      let (r, ran, left) =
        register_source-Leaves hash encode bucket.client bucket.head_object Stored (shows _ _ _ _)
          (resolve path) name version description source old t s sum fresh found unready in
      (
        (went_on r.0, r.1),
        rw there (
            ap
              (λ (x : Source). went (
                register_source hash encode bucket.client bucket.head_object (resolve path) name
                  description x t s))
              (only src refl)
            ∙ ap went ran),
        left,
      )

  -- Over clients in whose bucket a key is that was asked for, or that a listing shows; with the version
  -- that the checksum of what is at the path gives, and a table in which no row has the next id of the
  -- sequence, and the first row of this content, if there is one, is not ready: `main` ends, whatever
  -- is set in the environment and whether there is something at the path. If it ends for want of a
  -- variable or of the path, the table and the bucket are as they were. Else a row of this content that
  -- was not ready is removed, and either the new id is printed, the row is there, ready, and every key
  -- of the dataset is in the bucket; or the upload raises, and no row is left; or it is killed in the
  -- upload, and the row is there, pending.
  pub register_dataset_main-Leaves :
      ((src : Source) → look (resolve path) ≡ some src → src ≡ source)
      → checksum_of hash encode source ≡ some version
      → IsFresh t
      → find (same_dataset name version) t.rows ≡ old
      → is_unready old ≡ true
      → (r : Exit × (DatasetTable × S)) × (register_dataset_main hash encode connect resolve look
            env path name description t s
          ≡ some r)
        × LeavesAll Rest t s r
  unfolding register_dataset_main
  register_dataset_main-Leaves only =
      started (missing_keys env dataset_env) (look (resolve path)) only refl
