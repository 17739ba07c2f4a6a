-- ===== src/Registry.antt =====
-- The two registration scripts, ml-platform/scripts/register_model.py and register_dataset.py, on
-- the tables `models` and `datasets`. Each script's database function is one transaction. The id of
-- a new row comes from the table's sequence.
pub mod Defaults
pub mod Models
pub mod Content
pub mod Datasets
use krmed_cloud_services.Base.{
  Text, ℕ, ◌+◌, Bool, true, false, not, ◌&&◌, Option, none, some, List, [], ◌∷◌, ◌++◌, codes,
  text_eq, find, keep_if, ◌==◌, if◌then◌else◌,
}

pub record ModelEntry : Type 0 where
  pub id : ℕ
  pub hf_repo_id : Text
  pub revision : Text
  pub display_name : Text
  pub param_count : Option ℕ
  pub vram_hint : Option Text
  pub ready : Bool
  pub is_default : Bool

pub record ModelTable : Type 0 where
  pub rows : List ModelEntry
  pub next_id : ℕ

-- The id of the new row, or the `ValueError` with the id of the row that is there.
pub data Registration : Type 0 where
  registered : ℕ → Registration
  already_registered : ℕ → Registration

abbrev pub same_model : Text → Text → ModelEntry → Bool
same_model repo revision r = text_eq r.hf_repo_id repo && text_eq r.revision revision

-- `UPDATE models SET is_default = false WHERE hf_repo_id = … AND id != …`
unfoldable pub clear_defaults : Text → ℕ → List ModelEntry → List ModelEntry
clear_defaults repo id [] = []
clear_defaults repo id (r ∷ rs) =
    (if text_eq r.hf_repo_id repo && not (r.id == id) then record r { is_default = false } else r)
    ∷ clear_defaults repo id rs

-- `UPDATE models SET is_default = true WHERE id = …`
unfoldable pub make_default : ℕ → List ModelEntry → List ModelEntry
make_default id [] = []
make_default id (r ∷ rs) =
    (if r.id == id then record r { is_default = true } else r) ∷ make_default id rs

abbrev pub new_model : ℕ → Text → Text → Text → Option ℕ → Option Text → ModelEntry
new_model id repo revision name count hint = record {
  id = id;
  hf_repo_id = repo;
  revision = revision;
  display_name = name;
  param_count = count;
  vram_hint = hint;
  ready = true;
  is_default = false;
}

unfoldable pub insert_model : ModelEntry → Bool → ModelTable → Registration × ModelTable
unfolding clear_defaults make_default
insert_model r set_default t =
    let rows = t.rows ++ r ∷ [] in
    (
      registered r.id,
      record {
        rows =
            if set_default then make_default r.id (clear_defaults r.hf_repo_id r.id rows) else rows;
        next_id = t.next_id + 1;
      },
    )

abbrev pub register_unless :
    Option ModelEntry → ModelEntry → Bool → ModelTable → Registration × ModelTable
register_unless none r set_default t = insert_model r set_default t
register_unless (some old) r set_default t = (already_registered old.id, t)

-- `register_model`
unfoldable pub register_model :
    Text → Text → Text → Option ℕ → Option Text → Bool → ModelTable → Registration × ModelTable
register_model repo revision name count hint set_default t =
    register_unless (find (same_model repo revision) t.rows)
      (new_model t.next_id repo revision name count hint) set_default t

pub data DatasetStatus : Type 0 where
  pending ready archived : DatasetStatus

pub record DatasetRow : Type 0 where
  pub id : ℕ
  pub name : Text
  pub version : Text
  pub storage_path : Text
  pub path_type : Text
  pub size_bytes : ℕ
  pub sha256_checksum : Text
  pub status : DatasetStatus
  pub source_description : Option Text

pub record DatasetTable : Type 0 where
  pub rows : List DatasetRow
  pub next_id : ℕ

unfoldable pub is_ready : DatasetStatus → Bool
is_ready ready = true
is_ready _ = false

unfoldable pub is_pending : DatasetStatus → Bool
is_pending pending = true
is_pending _ = false

abbrev pub same_dataset : Text → Text → DatasetRow → Bool
same_dataset name version r = text_eq r.name name && text_eq r.version version

-- What the script knows of a dataset before it has an id.
pub record Draft : Type 0 where
  pub name : Text
  pub version : Text
  pub storage_path : Text
  pub path_type : Text
  pub size_bytes : ℕ
  pub source_description : Option Text

-- The version is the checksum.
abbrev pub pending_row : ℕ → Draft → DatasetRow
pending_row id d = record {
  id = id;
  name = d.name;
  version = d.version;
  storage_path = d.storage_path;
  path_type = d.path_type;
  size_bytes = d.size_bytes;
  sha256_checksum = d.version;
  status = pending;
  source_description = d.source_description;
}

unfoldable pub insert_pending : Draft → DatasetTable → (ℕ × Bool) × DatasetTable
insert_pending d t = (
  (t.next_id, false),
  record { rows = t.rows ++ pending_row t.next_id d ∷ []; next_id = t.next_id + 1 },
)

abbrev pub without_id : ℕ → List DatasetRow → List DatasetRow
without_id id rows = keep_if (λ r. not (r.id == id)) rows

abbrev reserve_over : Option DatasetRow → Draft → DatasetTable → (ℕ × Bool) × DatasetTable
reserve_over none d t = insert_pending d t
reserve_over (some old) d t =
    if is_ready old.status
    then ((old.id, true), t)
    else insert_pending d (record t { rows = without_id old.id t.rows })

-- `reserve_dataset_row`
unfoldable pub reserve : Draft → DatasetTable → (ℕ × Bool) × DatasetTable
unfolding insert_pending
reserve d t = reserve_over (find (same_dataset d.name d.version) t.rows) d t

unfoldable pub set_ready : ℕ → List DatasetRow → List DatasetRow
set_ready id [] = []
set_ready id (r ∷ rs) = (if r.id == id then record r { status = ready } else r) ∷ set_ready id rs

-- `activate_dataset_row`
unfoldable pub activate : ℕ → DatasetTable → DatasetTable
unfolding set_ready
activate id t = record t { rows = set_ready id t.rows }

-- `delete_dataset_row`
unfoldable pub delete_pending : ℕ → DatasetTable → DatasetTable
unfolding is_pending
delete_pending id t = record t {
  rows = keep_if (λ r. not (r.id == id && is_pending r.status)) t.rows;
}

-- How the script ends: the id it prints, or the exception of the upload.
pub data Ending : Type 0 where
  printed : ℕ → Ending
  upload_failed : Ending

abbrev after_reserve : Bool → (ℕ × Bool) × DatasetTable → Ending × DatasetTable
after_reserve uploads ((id, already), t) =
    if already
    then (printed id, t)
    else if uploads
    then (printed id, activate id t)
    else (upload_failed, delete_pending id t)

-- `main` of register_dataset.py from the reservation on, by whether the upload succeeds.
unfoldable pub register_dataset : Bool → Draft → DatasetTable → Ending × DatasetTable
unfolding activate delete_pending
register_dataset uploads d t = after_reserve uploads (reserve d t)
