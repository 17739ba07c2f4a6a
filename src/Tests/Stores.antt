-- ===== src/Tests/Stores.antt =====
-- The stores over a client that records what it moves.
use krmed_cloud_services.Base.{
  Text, ◌≡◌, refl, ◌⊎◌, inl, inr, true, false, List, [], ◌∷◌, ◌++◌, codes, keep_if, contains,
  contains-append, drop, length, is_empty, All, arith,
}
use krmed_cloud_services.Effects.{ok, ◌>>◌, attempt, pure}
use krmed_cloud_services.Schema.Uuid.{starts_with, uuid_str}
use krmed_cloud_services.Paths.{suffix, rstrip}
use krmed_cloud_services.Executor.{checkpoint_prefix}
use krmed_cloud_services.Stores.{
  Client, LocalPath, directory, inside, is_object, as_prefix, upload, download, download_prefix,
  list_keys, object_keys, guarded, for_each, fetch, store,
}
use krmed_cloud_services.Stores.Listing.{contains-keep_if}
use krmed_cloud_services.Stores.Transfers.{Moves, Lists, upload_complete, download_complete}
use krmed_cloud_services.Validation.{is_single_file}
use krmed_cloud_services.Tests.Fixtures.{job}

abbrev Record : Type 0
Record = List (LocalPath × Text)

abbrev IsRecorded : LocalPath → Text → Record → Type 0
IsRecorded p key [] = ⊥
IsRecorded p key ((q, k) ∷ rest) = ((q ≡ p) × (k ≡ key)) ⊎ IsRecorded p key rest

abbrev bucket : List Text
bucket = codes "d/a.csv" ∷ codes "d/" ∷ codes "e/b.csv" ∷ []

abbrev client : Client Record
client = record {
  list_objects = λ prefix s. (ok (keep_if (starts_with prefix) bucket ∷ []), s);
  download_file = λ key p s. (ok tt, (p, key) ∷ s);
  upload_file = λ p key s. (ok tt, (p, key) ∷ s);
  make_dir = λ dir s. (ok tt, s);
  make_parent = λ p s. (ok tt, s);
}

client-Moves : Moves client IsRecorded IsRecorded
client-Moves = record {
  fetched = λ key p. record { at = λ s h. inl (refl, refl) };
  fetched_stays = λ key other p q. record { at = λ s h. inr h };
  made_stays = λ other p q. record { at = λ s h. h };
  stored = λ key p. record { at = λ s h. inl (refl, refl) };
  stored_stays = λ key other p q. record { at = λ s h. inr h };
}

client-Lists : Lists client bucket
client-Lists = record {
  listed = λ prefix. record {
    at = λ s h key there under. ground (
      arith,
      contains-append key (keep_if (starts_with prefix) bucket) [],
      contains-keep_if key (starts_with prefix) bucket there under,
    );
  };
}

upload_complete_example :
    (codes "checkpoints/00000000-0000-0000-0000-000000000007/" ≡ checkpoint_prefix job)
    × (is_empty (codes "a.bin" ∷ []) ≡ false)
    × All
        (λ f.
          IsRecorded
            (inside (codes "out") f)
            (codes "checkpoints/00000000-0000-0000-0000-000000000007/" ++ f)
            (upload client 7 (codes "out") (codes "a.bin" ∷ []) []).1)
        (codes "a.bin" ∷ [])
unfolding upload ◌>>◌ for_each store guarded attempt pure uuid_str
upload_complete_example =
    upload_complete client IsRecorded IsRecorded client-Moves job (codes "out") (codes "a.bin" ∷ [])
      [] (upload client 7 (codes "out") (codes "a.bin" ∷ []) []).1
      (codes "checkpoints/00000000-0000-0000-0000-000000000007/") refl

download_complete_example :
    (directory (codes "in") ≡ directory (codes "in"))
    × ((key : Text)
        → contains key bucket ≡ true
        → starts_with (as_prefix (codes "d")) key ≡ true
        → is_object key ≡ true
        → IsRecorded
            (inside (codes "in") (drop (length (as_prefix (codes "d"))) key))
            key
            (download client (codes "d") (codes "in") []).1)
unfolding is_single_file suffix rstrip download ◌>>◌ download_prefix list_keys guarded attempt pure
    object_keys for_each fetch
download_complete_example =
    download_complete client IsRecorded IsRecorded client-Moves bucket client-Lists (codes "d")
      (codes "in") [] (download client (codes "d") (codes "in") []).1 (directory (codes "in")) refl
      refl
