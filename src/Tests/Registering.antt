-- ===== src/Tests/Registering.antt =====
-- The registration of datasets at concrete contents.
use krmed_cloud_services.Registry.Content.Start.{
  Exit, LeavesAll, dataset_env, register_dataset_main, register_dataset_main-Leaves,
}
use krmed_cloud_services.Base.{
  Text, ℕ, none, map, ◌≡◌, refl, List, [], ◌∷◌, ◌++◌, codes, some, false, true, All, arith,
  contains, contains-append, text_eq, text_eq_refl, subst, sym, Bool-cases, inl, inr, if◌then◌else◌,
}
use mathlib.Core.List.{append_assoc, append-nil}
use krmed_cloud_services.Effects.{ok, raised, boto_error, Exec, pure, ◌>>◌, ◌>>=◌}
use krmed_cloud_services.Effects.Rules.{After, Anything}
use krmed_cloud_services.Stores.{Client, for_each}
use krmed_cloud_services.Paths.{suffix}
use krmed_cloud_services.Validation.{is_single_file}
use krmed_cloud_services.Config.{Environ, missing_keys, get}
use krmed_cloud_services.Registry.{ModelTable, DatasetTable, pending_row, is_ready}
use krmed_cloud_services.Registry.Content.Script.{draft_of, Leaves}
use krmed_cloud_services.Registry.Models.{
  Arguments, Lookup, finished, fetch_hf_metadata, register_main, as_row,
}
use krmed_cloud_services.Registry.Models.Gate.{Serves, register_main-gate}
use krmed_cloud_services.Registry.Content.{
  Hash, Entry, Source, single_file, whole_directory, checksum_file, checksum_directory,
  sort_entries, insert_entry, path_lt, precedes, checksum_of, storage_of, upload_dataset,
  upload_each, verify, files_of, keys_below, missing_from,
}
use krmed_cloud_services.Registry.Content.Digest.{
  HashLaws, checksum_directory-eq-hash, a_file, checksum_file-eq-hash, checksum_directory_collides,
}
use krmed_cloud_services.Registry.Content.Storage.{IsHex, storage_of-is_single_file}
use krmed_cloud_services.Registry.Content.Upload.{keys_of, Shows, upload_dataset_complete}

-- A hash that keeps everything.
abbrev keeping : Hash (List ℕ)
keeping = record { start = []; update = λ h b. h ++ b; hexdigest = λ h. h }

keeping-HashLaws : HashLaws keeping
keeping-HashLaws = record {
  update_nil = λ h. append-nil h;
  update_append = λ h a b. append_assoc h a b;
}

abbrev entries : List Entry
entries = a_file (codes "a.csv") (codes "1,2") ∷ a_file (codes "b.csv") (codes "3") ∷ []

checksum_file-eq-hash_example : checksum_file keeping (codes "1,2") ≡ some (codes "1,2")
checksum_file-eq-hash_example = checksum_file-eq-hash keeping keeping-HashLaws (codes "1,2")

checksum_directory_collides_example :
    checksum_directory keeping
      (λ t. t)
      (a_file (codes "d/x") (codes "y") ∷ a_file (codes "a") (codes "bc") ∷ [])
    ≡ checksum_directory keeping
        (λ t. t)
        (a_file (codes "d/x") (codes "y") ∷ a_file (codes "ab") (codes "c") ∷ [])
unfolding sort_entries insert_entry path_lt precedes text_eq
checksum_directory_collides_example =
    checksum_directory_collides keeping (λ t. t) _ _ [] (a_file (codes "d/x") (codes "y") ∷ [])
      (codes "a") (codes "b") (codes "c") keeping-HashLaws (λ s t. refl) refl refl

version-IsHex : IsHex (codes "0af3")
version-IsHex = record { nonempty = refl; digits = (refl, (refl, (refl, (refl, tt)))) }

-- A file without a suffix.
storage_of-is_single_file_example :
    is_single_file (storage_of (codes "d") (codes "0af3") (single_file (codes "LICENSE") [])).0
    ≡ false
unfolding suffix
storage_of-is_single_file_example =
    storage_of-is_single_file (codes "d") (codes "0af3") (single_file (codes "LICENSE") [])
      version-IsHex

-- The state is the list of the keys of the bucket.
abbrev bucket_client : Client (List Text)
bucket_client = record {
  list_objects = λ prefix s. (ok (s ∷ []), s);
  download_file = λ key p. pure tt;
  upload_file = λ p key s. (ok tt, key ∷ s);
  make_dir = λ dir. pure tt;
  make_parent = λ p. pure tt;
}

abbrev head_object : Text → Exec (List Text) (Unit {0})
head_object key s = if contains key s then (ok tt, s) else (raised boto_error, s)

abbrev IsStored : Text → List Text → Type 0
IsStored key s = contains key s ≡ true

contains_here : (k : Text) (ks : List Text) → contains k (k ∷ ks) ≡ true
unfolding contains
contains_here k ks = rw (text_eq_refl k) refl

All-IsStored : (before keys : List Text) → All (λ k. IsStored k (before ++ keys)) keys
All-IsStored before [] = tt
All-IsStored before (k ∷ ks) = (
  ground (arith, contains-append k before (k ∷ ks), contains_here k ks),
  subst (λ l. All (λ x. IsStored x l) ks) (append_assoc before (k ∷ []) ks)
      (All-IsStored (before ++ k ∷ []) ks),
)

headed :
    (key : Text) (s : List Text)
    → After (λ _. IsStored key) (λ _. Anything) Anything (head_object key s)
headed key s = elim (Bool-cases (contains key s)) [
  | inl there ↦ rw there there
  | inr absent ↦ rw absent tt
]

bucket-Shows : Shows bucket_client head_object IsStored
bucket-Shows = record {
  headed = λ key. record { at = λ s h. headed key s };
  listed = λ prefix. record {
    at = λ s h. subst (λ l. All (λ k. IsStored k s) l) (sym (append-nil s)) (All-IsStored [] s);
  };
}

abbrev folder : Source
folder = whole_directory entries

upload_dataset_complete_example :
    ((codes "datasets/d/v/", codes "prefix") ≡ storage_of (codes "d") (codes "v") folder)
    × All
        (λ k.
          IsStored k
            (upload_dataset bucket_client head_object
              (codes "in")
              (codes "d")
              (codes "v")
              folder
              []).1)
        (keys_of (codes "datasets/d/v/") folder)
unfolding sort_entries insert_entry path_lt upload_dataset ◌>>◌ ◌>>=◌ upload_each verify for_each
    pure files_of keys_below missing_from contains text_eq
upload_dataset_complete_example =
    upload_dataset_complete bucket_client head_object IsStored bucket-Shows (codes "in") (codes "d")
      (codes "v") folder []
      (upload_dataset bucket_client head_object (codes "in") (codes "d") (codes "v") folder []).1
      (codes "datasets/d/v/", codes "prefix") refl

abbrev models : ModelTable
models = record { rows = []; next_id = 3 }

abbrev arguments : Arguments
arguments = record {
  repo_id = codes "m/m";
  revision = none;
  display_name = none;
  set_default = true;
}

-- A hub that answers with a large model.
abbrev hub : Lookup
hub repo revision =
    some (record { sha = some (codes "abc"); safetensors = some (some 30000000000) })

abbrev environ : Environ
environ = (codes "DATABASE_URL", codes "d") ∷ []

register_main-gate_example :
    (u : ModelTable) × (register_main environ hub arguments models ≡ (finished 3, u))
    × Serves (codes "m/m") (codes "abc") (some 30000000000) models (map as_row u.rows)
unfolding missing_keys fetch_hf_metadata get text_eq
register_main-gate_example =
    register_main-gate environ hub arguments (codes "abc") (some 30000000000) models models refl
      refl refl tt refl

-- A killed run has left its row.
abbrev stale : DatasetTable
stale = record {
  rows = pending_row 4 (draft_of (codes "d") (codes "a.csv1,2b.csv3") none folder) ∷ [];
  next_id = 5;
}

-- Everything is set, and the folder is at the path.
abbrev full_environ : Environ
full_environ = map (λ k. (k, codes "x")) dataset_env

register_dataset_main-Leaves_example :
    (r : Exit × (DatasetTable × List Text)) × (register_dataset_main keeping
        (λ t. t)
        (λ a b c d. record { client = bucket_client; head_object = head_object })
        (λ p. p)
        (λ p. some folder)
        full_environ
        (codes "in")
        (codes "d")
        none
        stale
        []
      ≡ some r)
    × LeavesAll
        (Leaves IsStored (draft_of (codes "d") (codes "a.csv1,2b.csv3") none folder) folder 5 [])
        stale
        []
        r
unfolding text_eq is_ready checksum_of sort_entries insert_entry path_lt
register_dataset_main-Leaves_example =
    register_dataset_main-Leaves keeping (λ t. t)
      (λ a b c d. record { client = bucket_client; head_object = head_object }) (λ p. p)
      (λ p. some folder) IsStored (λ a b c d. bucket-Shows) full_environ (codes "in") (codes "d")
      (codes "a.csv1,2b.csv3") none folder
      (some (pending_row 4 (draft_of (codes "d") (codes "a.csv1,2b.csv3") none folder))) stale []
      (λ src e. cc) (checksum_directory-eq-hash keeping keeping-HashLaws (λ t. t) entries)
      (refl, tt) refl refl
