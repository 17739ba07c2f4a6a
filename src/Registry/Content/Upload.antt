-- ===== src/Registry/Content/Upload.antt =====
-- An upload that returns was verified: the keys are in the bucket.
use krmed_cloud_services.Base.{
  Text, ℕ, ◌≡◌, Option, List, [], ◌∷◌, ◌++◌, codes, All, contains, Bool-cases, inl, inr, arith,
  refl, none, some, subst, if◌then◌else◌,
}
use krmed_cloud_services.Effects.{ok, Exec, pure, raise}
use krmed_cloud_services.Effects.Rules.{
  After, Triple-then, Triple-bind, after_ok, any_run, Anything,
}
use krmed_cloud_services.Paths.{suffix}
use krmed_cloud_services.Stores.{Client}
use krmed_cloud_services.Stores.Loops.{Gets}
use krmed_cloud_services.Stores.Listing.{contained}
use krmed_cloud_services.Registry.Content.{
  Entry, with_file, Source, single_file, whole_directory, base_path, storage_of, files_of,
  keys_below, pages_keys, missing_from, unless_missing, verify, upload_dataset, path_lt,
  insert_entry, sort_entries,
}

-- The keys a dataset is stored under.
abbrev pub keys_of : Text → Source → List Text
keys_of path (single_file file content) = path ∷ []
keys_of path (whole_directory entries) = keys_below path (files_of entries)

All-later :
    (P : Text → Type 0) (prefix path : Text) (content : Option (List ℕ)) (xs ys : List Text)
    → (All P (keys_below prefix xs) → All P (keys_below prefix ys))
    → All P (keys_below prefix (with_file content path xs))
    → All P (keys_below prefix (with_file content path ys))
unfolding keys_below
All-later P prefix path none xs ys f h = f h
All-later P prefix path (some c) xs ys f (h, hs) = (h, f hs)

All-swapped :
    (P : Text → Type 0) (prefix p q : Text) (c d : Option (List ℕ)) (xs : List Text)
    → All P (keys_below prefix (with_file d q (with_file c p xs)))
    → All P (keys_below prefix (with_file c p (with_file d q xs)))
unfolding keys_below
All-swapped P prefix p q none d xs h = h
All-swapped P prefix p q (some x) none xs h = h
All-swapped P prefix p q (some x) (some y) xs (h, rest) = (rest.0, (h, rest.1))

All-insert_entry :
    (P : Text → Type 0) (prefix : Text) (e : Entry) (es : List Entry)
    → All P (keys_below prefix (files_of (insert_entry e es)))
    → All P (keys_below prefix (files_of (e ∷ es)))
unfolding insert_entry files_of keys_below
All-insert_entry P prefix e [] h = h
All-insert_entry P prefix e (f ∷ fs) h = elim (Bool-cases (path_lt f.relative e.relative)) [
  | inl less ↦ All-swapped P prefix e.relative f.relative e.content f.content (files_of fs) (
      All-later P prefix f.relative f.content (files_of (insert_entry e fs)) (files_of (e ∷ fs))
        (All-insert_entry P prefix e fs)
        (subst
          (λ b.
            All P (keys_below prefix (files_of (if b then f ∷ insert_entry e fs else e ∷ f ∷ fs))))
          less h))
  | inr other ↦
      subst
        (λ b.
          All P (keys_below prefix (files_of (if b then f ∷ insert_entry e fs else e ∷ f ∷ fs))))
        other h
]

-- Sorting loses no key.
All-sort_entries :
    (P : Text → Type 0) (prefix : Text) (es : List Entry)
    → All P (keys_below prefix (files_of (sort_entries es)))
    → All P (keys_below prefix (files_of es))
unfolding sort_entries files_of
All-sort_entries P prefix [] h = h
All-sort_entries P prefix (e ∷ es) h =
    All-later P prefix e.relative e.content (files_of (sort_entries es)) (files_of es)
      (All-sort_entries P prefix es) (All-insert_entry P prefix e (sort_entries es) h)

-- What the script relies on: a key that the bucket is asked for, or that a listing shows, is there.
pub record Shows {S : Type 0} (client : Client S) (head_object : Text → Exec S (Unit {0}))
    (Stored : Text → S → Type 0) : Type 0 where
  pub headed : (key : Text) → Gets (head_object key) (λ _. Stored key)
  pub listed :
      (prefix : Text)
      → Gets (client.list_objects prefix) (λ pages s. All (λ k. Stored k s) (pages_keys pages))

missing_from_none :
    (P : Text → Type 0) (found uploaded : List Text)
    → All P found
    → missing_from found uploaded ≡ []
    → All P uploaded
unfolding missing_from
missing_from_none P found [] all h = tt
missing_from_none P found (k ∷ ks) all h = elim (Bool-cases (contains k found)) [
  | inl there ↦ (contained P k found all there, missing_from_none P found ks all (ground arith))
  | inr absent ↦ absurd (ground arith)
]

module _ {S : Type 0} (client : Client S) (head_object : Text → Exec S (Unit {0}))
    (Stored : Text → S → Type 0) (shows : Shows client head_object Stored) where
  unless_missing_lem :
      (found uploaded missing : List Text) (s : S)
      → All (λ k. Stored k s) found
      → missing_from found uploaded ≡ missing
      → After
          (λ _ t. All (λ k. Stored k t) uploaded)
          (λ _. Anything)
          Anything
          (unless_missing client head_object missing s)
  unfolding pure raise
  unless_missing_lem found uploaded [] s all e =
      missing_from_none (λ k. Stored k s) found uploaded all e
  unless_missing_lem found uploaded (k ∷ ks) s all e = tt

  verify-Gets :
      (prefix : Text) (uploaded : List Text)
      → Gets (verify client head_object prefix uploaded) (λ _ s. All (λ k. Stored k s) uploaded)
  unfolding verify
  verify-Gets prefix uploaded =
      Triple-bind (λ pages s. All (λ k. Stored k s) (pages_keys pages)) _ _ (shows.listed prefix)
        (λ pages. record {
          at = λ s all. unless_missing_lem (pages_keys pages) uploaded _ s all refl;
        })

  pub upload_dataset-Gets :
      (local_path name version : Text) (source : Source)
      → Gets
          (upload_dataset client head_object local_path name version source)
          (λ r s. (r ≡ storage_of name version source) × All (λ k. Stored k s) (keys_of r.0 source))
  unfolding upload_dataset storage_of pure
  upload_dataset-Gets local_path name version (single_file file content) =
      Triple-then (Stored (base_path name version ++ suffix file)) _ _
        (Triple-then Anything _ _ (any_run _) (shows.headed _))
        (record { at = λ s there. (refl, (there, tt)) })
  upload_dataset-Gets local_path name version (whole_directory entries) =
      let prefix = base_path name version ++ codes "/" in
      Triple-then (λ s. All (λ k. Stored k s) (keys_below prefix (files_of (sort_entries entries))))
        _ _
        (Triple-then Anything _ _ (any_run _)
          (verify-Gets prefix (keys_below prefix (files_of (sort_entries entries)))))
        (record { at = λ s all. (refl, All-sort_entries (λ k. Stored k s) prefix entries all) })

-- Over a client in whose bucket a key is that it was asked for, or that a listing shows: an
-- upload of a dataset that returns gives the path and the type that the script reserved the row
-- with, and every key of the dataset is in the bucket: that of the file, or one for each file of the
-- directory. Nothing is supposed of the calls that upload: the script looks for itself.
pub upload_dataset_complete :
    {S : Type 0} (client : Client S) (head_object : Text → Exec S (Unit {0}))
    (Stored : Text → S → Type 0)
    → Shows client head_object Stored
    → (local_path name version : Text) (source : Source) (s t : S) (r : Text × Text)
    → upload_dataset client head_object local_path name version source s ≡ (ok r, t)
    → (r ≡ storage_of name version source) × All (λ k. Stored k t) (keys_of r.0 source)
upload_dataset_complete client head_object Stored shows local_path name version source s t r e =
    after_ok _ _ r t
      ((upload_dataset-Gets client head_object Stored shows local_path name version source).at s tt)
      e
