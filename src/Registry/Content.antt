-- ===== src/Registry/Content.antt =====
-- ml-platform/scripts/register_dataset.py: what a dataset is identified by, where it is stored and how
-- it gets there. The hash, the S3 client and the encoding of texts are parameters.
pub mod Digest
pub mod Storage
pub mod Upload
pub mod Script
pub mod Start
use krmed_cloud_services.Base.{
  Text, ℕ, zero, suc, ◌+◌, ◌*◌, Bool, true, false, Option, none, some, List, [], ◌∷◌, ◌++◌, codes,
  length, take, drop, is_empty, contains, keep_if, not, ltb, ◌==◌, ◌||◌, ◌&&◌, text_eq,
  if◌then◌else◌,
}
use krmed_cloud_services.Effects.{Exn, other, Exec, pure, raise, ◌>>=◌, ◌>>◌}
use krmed_cloud_services.Paths.{suffix, split}
use krmed_cloud_services.Stores.{Client, LocalPath, directory, inside, for_each}

-- A hash object of hashlib: `update` returns the object as it is afterwards.
pub record Hash (H : Type 0) : Type 0 where
  pub start : H
  pub update : H → List ℕ → H
  pub hexdigest : H → Text

-- What `directory.rglob("*")` lists, in any order: a path below the directory, with the bytes of a
-- file.
pub record Entry : Type 0 where
  pub relative : Text
  pub content : Option (List ℕ)

-- The local path of the script: a file by its name, or a directory.
pub data Source : Type 0 where
  single_file : Text → List ℕ → Source
  whole_directory : List Entry → Source

-- Lists in lexicographic order.
unfoldable pub precedes : {A : Type 0} → (A → A → Bool) → (A → A → Bool) → List A → List A → Bool
precedes same before [] [] = false
precedes same before [] (y ∷ ys) = true
precedes same before (x ∷ xs) [] = false
precedes same before (x ∷ xs) (y ∷ ys) = before x y || (same x y && precedes same before xs ys)

abbrev parts_of : Text → List Text
unfolding split
parts_of path = let (p, ps) = split b'/' path in p ∷ ps

-- `a < b` of two paths of pathlib below one directory: by their parts, each by its characters.
unfoldable pub path_lt : Text → Text → Bool
unfolding precedes split text_eq
path_lt a b = precedes text_eq (precedes (λ m n. m == n) ltb) (parts_of a) (parts_of b)

unfoldable pub insert_entry : Entry → List Entry → List Entry
insert_entry e [] = e ∷ []
insert_entry e (f ∷ fs) =
    let rest = insert_entry e fs in if path_lt f.relative e.relative then f ∷ rest else e ∷ f ∷ fs

-- `sorted(...)` of the entries by their paths.
unfoldable pub sort_entries : List Entry → List Entry
sort_entries [] = []
sort_entries (e ∷ es) = insert_entry e (sort_entries es)

abbrev pub chunk_size : ℕ
chunk_size = 8 * 1024 * 1024

abbrev pub and_then : {A B : Type 0} → Option A → (A → Option B) → Option B
and_then none f = none
and_then (some a) f = f a

module _ {H : Type 0} (hash : Hash H) where
  -- `for chunk in iter(lambda: f.read(size), b""): h.update(chunk)`, on fuel.
  unfoldable pub hash_chunks : ℕ → ℕ → H → List ℕ → Option H
  hash_chunks size zero h content = none
  hash_chunks size (suc fuel) h content =
      let rest = hash_chunks size fuel (hash.update h (take size content)) (drop size content) in
      if is_empty (take size content) then some h else rest

  -- `_hash_file_into`: each chunk that is read takes a byte at least.
  unfoldable pub hash_file_into : H → List ℕ → Option H
  hash_file_into h content = hash_chunks chunk_size (length content + 1) h content

  abbrev digest_of : Option H → Option Text
  digest_of none = none
  digest_of (some h) = some (hash.hexdigest h)

  unfoldable pub checksum_file : List ℕ → Option Text
  checksum_file content = digest_of (hash_file_into hash.start content)

  module _ (encode : Text → List ℕ) where
    abbrev hash_content : H → Text → Option (List ℕ) → Option H
    hash_content h relative none = some h
    hash_content h relative (some content) =
        hash_file_into (hash.update h (encode relative)) content

    -- The loop of `checksum_directory`.
    unfoldable pub hash_entries : H → List Entry → Option H
    hash_entries h [] = some h
    hash_entries h (e ∷ es) =
        and_then (hash_content h e.relative e.content) (λ h'. hash_entries h' es)

    unfoldable pub checksum_directory : List Entry → Option Text
    checksum_directory entries = digest_of (hash_entries hash.start (sort_entries entries))

    -- The version of a dataset.
    unfoldable pub checksum_of : Source → Option Text
    unfolding checksum_file checksum_directory
    checksum_of (single_file name content) = checksum_file content
    checksum_of (whole_directory entries) = checksum_directory entries

abbrev bytes : Option (List ℕ) → ℕ
bytes none = 0
bytes (some content) = length content

unfoldable pub sum_sizes : List Entry → ℕ
sum_sizes [] = 0
sum_sizes (e ∷ es) = bytes e.content + sum_sizes es

unfoldable pub total_size : Source → ℕ
unfolding sum_sizes
total_size (single_file name content) = length content
total_size (whole_directory entries) = sum_sizes entries

abbrev pub base_path : Text → Text → Text
base_path name version = codes "datasets/" ++ (name ++ (codes "/" ++ version))

-- `storage_path` and `path_type`, as `main` computes them before it reserves the row.
unfoldable pub storage_of : Text → Text → Source → Text × Text
storage_of name version (single_file file content) =
    (base_path name version ++ suffix file, codes "object")
storage_of name version (whole_directory entries) =
    (base_path name version ++ codes "/", codes "prefix")

-- The paths of the files among the entries.
abbrev pub with_file : Option (List ℕ) → Text → List Text → List Text
with_file none path rest = rest
with_file (some content) path rest = path ∷ rest

unfoldable pub files_of : List Entry → List Text
files_of [] = []
files_of (e ∷ es) = with_file e.content e.relative (files_of es)

unfoldable pub keys_below : Text → List Text → List Text
keys_below prefix [] = []
keys_below prefix (f ∷ fs) = (prefix ++ f) ∷ keys_below prefix fs

abbrev pub pages_keys : List (List Text) → List Text
pages_keys [] = []
pages_keys (page ∷ pages) = page ++ pages_keys pages

-- `set(uploaded) - found`
unfoldable pub missing_from : List Text → List Text → List Text
missing_from found [] = []
missing_from found (k ∷ ks) =
    let rest = missing_from found ks in if contains k found then rest else k ∷ rest

module _ {S : Type 0} (client : Client S) (head_object : Text → Exec S (Unit {0})) where
  unfoldable pub upload_each : Text → Text → List Text → Exec S (Unit {0})
  upload_each local_path prefix files =
      for_each (λ f. client.upload_file (inside local_path f) (prefix ++ f)) files

  abbrev pub unless_missing : List Text → Exec S (Unit {0})
  unless_missing [] = pure tt
  unless_missing (k ∷ ks) = raise (other (codes "Upload verification failed"))

  unfoldable pub verify : Text → List Text → Exec S (Unit {0})
  verify prefix uploaded = client.list_objects prefix >>= λ pages.
      unless_missing (missing_from (pages_keys pages) uploaded)

  -- `upload_dataset`
  unfoldable pub upload_dataset : Text → Text → Text → Source → Exec S (Text × Text)
  upload_dataset local_path name version (single_file file content) =
      let key = base_path name version ++ suffix file in
      client.upload_file (directory local_path) key >> head_object key >> pure (key, codes "object")
  upload_dataset local_path name version (whole_directory entries) =
      let prefix = base_path name version ++ codes "/" in
      let files = files_of (sort_entries entries) in
      upload_each local_path prefix files
      >> verify prefix (keys_below prefix files)
      >> pure (prefix, codes "prefix")
