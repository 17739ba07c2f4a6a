-- ===== src/Registry/Content/Script.antt =====
-- ml-platform/scripts/register_dataset.py: `main` as one piece, from the checksum to the end, on the
-- table of datasets and the bucket; the process may be killed during the upload.
use krmed_cloud_services.Base.{
  Text, ℕ, ◌+◌, ◌≡◌, refl, ap, subst, Bool, Bool-cases, inl, inr, true, false, not, Option, none,
  some, List, [], ◌∷◌, ◌++◌, ◌==◌, find, keep_if, All, if◌then◌else◌, arith,
}
use krmed_cloud_services.Effects.{Exn, Result, ok, raised, killed, Exec}
use krmed_cloud_services.Effects.Rules.{After, Anything}
use krmed_cloud_services.Stores.{Client}
use krmed_cloud_services.Registry.{
  DatasetRow, DatasetTable, Draft, ready, is_ready, same_dataset, pending_row, insert_pending,
  without_id, reserve, activate, delete_pending,
}
use krmed_cloud_services.Registry.Datasets.{IsFresh, removed_last, activated_last}
use krmed_cloud_services.Registry.Content.{
  Hash, Source, checksum_of, total_size, storage_of, upload_dataset,
}
use krmed_cloud_services.Registry.Content.Upload.{keys_of, Shows, upload_dataset-Gets}

-- How the script ends: with an id on stdout, with the exception of the upload, or killed.
pub data End : Type 0 where
  id_printed : ℕ → End
  upload_raised : Exn → End
  was_killed : End

abbrev pub draft_of : Text → Text → Option Text → Source → Draft
draft_of name version description source = record {
  name = name;
  version = version;
  storage_path = (storage_of name version source).0;
  path_type = (storage_of name version source).1;
  size_bytes = total_size source;
  source_description = description;
}

-- `try: upload_dataset(…) except Exception: …`, and the activation.
unfoldable pub after_upload :
    {S A : Type 0} → ℕ → DatasetTable → Result A × S → End × (DatasetTable × S)
after_upload id t (ok path, s) = (id_printed id, (activate id t, s))
after_upload id t (raised e, s) = (upload_raised e, (delete_pending id t, s))
after_upload id t (killed, s) = (was_killed, (t, s))

unfoldable pub after_reservation :
    {S A : Type 0} → Exec S A → (ℕ × Bool) × DatasetTable → S → End × (DatasetTable × S)
after_reservation upload ((id, already), t) s =
    if already then (id_printed id, (t, s)) else after_upload id t (upload s)

module _ {H S : Type 0} (hash : Hash H) (encode : Text → List ℕ) (client : Client S)
    (head_object : Text → Exec S (Unit {0})) where
  abbrev pub register_version :
      Option Text
      → Text
      → Text
      → Option Text
      → Source
      → DatasetTable
      → S
      → Option (End × (DatasetTable × S))
  register_version none local_path name description source t s = none
  register_version (some version) local_path name description source t s = some (
      after_reservation (upload_dataset client head_object local_path name version source)
        (reserve (draft_of name version description source) t) s)

  -- `main`; `none` means that the fuel of the checksum ran out.
  unfoldable pub register_source :
      Text → Text → Option Text → Source → DatasetTable → S → Option (End × (DatasetTable × S))
  register_source local_path name description source t s =
      register_version (checksum_of hash encode source) local_path name description source t s

-- The rows that a reservation leaves beside its own, by the row of the same content that it finds.
abbrev pub unreserved : Option DatasetRow → List DatasetRow → List DatasetRow
unreserved none rows = rows
unreserved (some old) rows = without_id old.id rows

abbrev pub is_unready : Option DatasetRow → Bool
is_unready none = true
is_unready (some old) = not (is_ready old.status)

reserve_lem :
    (d : Draft) (o : Option DatasetRow) (t : DatasetTable)
    → find (same_dataset d.name d.version) t.rows ≡ o
    → is_unready o ≡ true
    → reserve d t ≡ (
      (t.next_id, false),
      record {
        rows = unreserved o t.rows ++ pending_row t.next_id d ∷ [];
        next_id = t.next_id + 1;
      },
    )
unfolding reserve insert_pending
reserve_lem d none t found h = rw found refl
reserve_lem d (some old) t found h = rw found (ground arith)

All-keep_if :
    (P : DatasetRow → Type 0) (p : DatasetRow → Bool) (rows : List DatasetRow)
    → All P rows
    → All P (keep_if p rows)
All-keep_if P p [] h = tt
All-keep_if P p (r ∷ rows) h = elim (Bool-cases (p r)) [
  | inl kept ↦ rw kept (h.0, All-keep_if P p rows h.1)
  | inr dropped ↦ rw dropped (All-keep_if P p rows h.1)
]

unreserved-fresh :
    (o : Option DatasetRow) (t : DatasetTable)
    → IsFresh t
    → All (λ r. (r.id == t.next_id) ≡ false) (unreserved o t.rows)
unreserved-fresh none t h = h
unreserved-fresh (some old) t h = All-keep_if _ _ t.rows h

-- What a run leaves, beside the rows `base`: a ready row, printed, all of whose keys are in the bucket;
-- nothing; or a pending row.
abbrev pub Leaves :
    {S : Type 0}
    → (Text → S → Type 0)
    → Draft
    → Source
    → ℕ
    → List DatasetRow
    → End × (DatasetTable × S)
    → Type 0
Leaves Stored d source id base (id_printed n, (u, s)) =
    (n ≡ id)
    × (u.rows ≡ base ++ record (pending_row id d) { status = ready } ∷ [])
    × All (λ k. Stored k s) (keys_of d.storage_path source)
Leaves Stored d source id base (upload_raised e, (u, s)) = u.rows ≡ base
Leaves Stored d source id base (was_killed, (u, s)) = u.rows ≡ base ++ pending_row id d ∷ []

module _ {S : Type 0} (Stored : Text → S → Type 0) (d : Draft) (source : Source) where
  after_upload_lem :
      (id : ℕ) (base : List DatasetRow) (r : Result (Text × Text) × S)
      → All (λ x. (x.id == id) ≡ false) base
      → After
          (λ p s. (p ≡ (d.storage_path, d.path_type)) × All (λ k. Stored k s) (keys_of p.0 source))
          (λ _. Anything)
          Anything
          r
      → Leaves Stored d source id base
          (after_upload id (record { rows = base ++ pending_row id d ∷ []; next_id = id + 1 }) r)
  unfolding after_upload activate delete_pending
  after_upload_lem id base (ok p, s) fresh h = (
    refl,
    activated_last d id base fresh,
    subst (λ q. All (λ k. Stored k s) (keys_of q source)) (ap (λ (q : Text × Text). q.0) h.0) h.1,
  )
  after_upload_lem id base (raised e, s) fresh h = removed_last d id base fresh
  after_upload_lem id base (killed, s) fresh h = refl

-- Over a client in whose bucket a key is that it was asked for, or that a listing shows; with the
-- version that the checksum gives, and a table in which no row has the next id of the sequence, and
-- the first row of this content, if there is one, is not ready, as after a run that was killed: the
-- script removes that row and ends in one of three ways. It prints the new id, then the row is there,
-- ready, and every key of the dataset is in the bucket; or the upload raises, then no row is left of
-- it; or it is killed in the upload, then its row is there, pending.
pub register_source-Leaves :
    {H S : Type 0} (hash : Hash H) (encode : Text → List ℕ) (client : Client S)
    (head_object : Text → Exec S (Unit {0})) (Stored : Text → S → Type 0)
    → Shows client head_object Stored
    → (local_path name version : Text) (description : Option Text) (source : Source)
      (old : Option DatasetRow) (t : DatasetTable) (s : S)
    → checksum_of hash encode source ≡ some version
    → IsFresh t
    → find (same_dataset name version) t.rows ≡ old
    → is_unready old ≡ true
    → (r : End × (DatasetTable × S)) × (register_source hash encode client head_object local_path
          name description source t s
        ≡ some r)
      × Leaves Stored
          (draft_of name version description source)
          source
          t.next_id
          (unreserved old t.rows)
          r
unfolding register_source after_reservation
register_source-Leaves hash encode client head_object Stored shows local_path name version
      description source old t s sum fresh found unready =
    let d = draft_of name version description source in
    let upload = upload_dataset client head_object local_path name version source in
    let rows = unreserved old t.rows ++ pending_row t.next_id d ∷ [] in
    (
      after_upload t.next_id (record { rows = rows; next_id = t.next_id + 1 }) (upload s),
      rw (sum, reserve_lem d old t found unready) refl,
      after_upload_lem Stored d source t.next_id (unreserved old t.rows) (upload s)
          (unreserved-fresh old t fresh)
          ((upload_dataset-Gets client head_object Stored shows local_path name version source).at s
            tt),
    )
