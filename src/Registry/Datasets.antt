-- ===== src/Registry/Datasets.antt =====
-- What the registration of a dataset leaves in the table, on each way it can end.
use krmed_cloud_services.Base.{
  ℕ, ◌+◌, ◌≡◌, Bool, true, false, not, ◌&&◌, none, some, List, [], ◌∷◌, ◌++◌, ◌==◌, ==_refl, find,
  keep_if, All, if◌then◌else◌, arith,
}
use krmed_cloud_services.Registry.{
  DatasetRow, DatasetTable, Draft, ready, is_ready, is_pending, same_dataset, pending_row,
  insert_pending, reserve, set_ready, activate, delete_pending, printed, upload_failed,
  register_dataset,
}

abbrev pub IsFresh : DatasetTable → Type 0
IsFresh t = All (λ r. (r.id == t.next_id) ≡ false) t.rows

-- Removing the row that was just added gives the table's rows back.
pub removed_last :
    (d : Draft) (id : ℕ) (rows : List DatasetRow)
    → All (λ r. (r.id == id) ≡ false) rows
    → keep_if (λ r. not (r.id == id && is_pending r.status)) (rows ++ pending_row id d ∷ []) ≡ rows
unfolding is_pending
removed_last d id [] h = ground (arith, ==_refl id)
removed_last d id (r ∷ rows) h = ground (arith, removed_last d id rows h.1, h.0)

pub activated_last :
    (d : Draft) (id : ℕ) (rows : List DatasetRow)
    → All (λ r. (r.id == id) ≡ false) rows
    → set_ready id (rows ++ pending_row id d ∷ [])
      ≡ rows ++ record (pending_row id d) { status = ready } ∷ []
unfolding set_ready
activated_last d id [] h = ground (arith, ==_refl id)
activated_last d id (r ∷ rows) h = ground (arith, activated_last d id rows h.1, h.0)

-- When the content is not registered yet and no row has the next id of the sequence, a failed upload leaves the rows as they were, and a
-- successful one adds exactly the row of the dataset, ready, under the id that is printed.
pub register_dataset-new :
    (uploads : Bool) (d : Draft) (t : DatasetTable)
    → IsFresh t
    → find (same_dataset d.name d.version) t.rows ≡ none
    → register_dataset uploads d t ≡ (
        if uploads
        then (
          printed t.next_id,
          record {
            rows = t.rows ++ record (pending_row t.next_id d) { status = ready } ∷ [];
            next_id = t.next_id + 1;
          },
        )
        else (upload_failed, record { rows = t.rows; next_id = t.next_id + 1 }))
unfolding register_dataset reserve insert_pending activate delete_pending
register_dataset-new true d t fresh new =
    rw new (ground (arith, activated_last d t.next_id t.rows fresh))
register_dataset-new false d t fresh new =
    rw new (ground (arith, removed_last d t.next_id t.rows fresh))

-- Registering content that is ready under this name changes nothing and prints its id, whether or
-- not an upload would succeed.
pub register_dataset-ready :
    (uploads : Bool) (d : Draft) (row : DatasetRow) (t : DatasetTable)
    → find (same_dataset d.name d.version) t.rows ≡ some row
    → row.status ≡ ready
    → register_dataset uploads d t ≡ (printed row.id, t)
unfolding register_dataset reserve is_ready
register_dataset-ready uploads d row t found is = rw found (ground arith)
