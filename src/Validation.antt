-- ===== src/Validation.antt =====
-- ml-platform/worker/crucible_worker/validation.py, and the test of a dataset key in
-- dataset_store.py.
pub mod Agreement
use krmed_cloud_services.Base.{
  Text, ◌≡◌, Bool, true, false, not, ◌||◌, Option, none, some, List, [], ◌∷◌, codes, text_eq,
  contains, is_empty, if◌then◌else◌,
}
use krmed_cloud_services.Effects.{Exn, unsupported_format, Exec, pure, raise, ◌>>=◌}
use krmed_cloud_services.Paths.{suffix, lower, lstrip, rstrip}

abbrev pub supported_formats : List Text
supported_formats = codes "csv" ∷ codes "json" ∷ codes "parquet" ∷ []

abbrev pub or_none : Text → Option Text
or_none [] = none
or_none (c ∷ t) = some (c ∷ t)

-- `suffix.lower().lstrip(".")`
unfoldable pub bare_suffix : Text → Text
bare_suffix path = lstrip b'.' (lower (suffix path))

unfoldable pub detect_format : Text → Option Text
unfolding bare_suffix
detect_format dataset_path = or_none (bare_suffix dataset_path)

-- What a detected format leads to: no format to check, a supported one, or the exception.
unfoldable pub judge : {S : Type 0} → Text → Option Text → Exec S (Option Text)
unfolding contains
judge path none = pure none
judge path (some fmt) =
    if contains fmt supported_formats then pure (some fmt) else raise (unsupported_format fmt path)

unfoldable pub validate_dataset_format : {S : Type 0} → Text → Exec S (Option Text)
unfolding judge detect_format
validate_dataset_format dataset_path = judge dataset_path (detect_format dataset_path)

-- `_is_single_file` of the dataset store
unfoldable pub is_single_file : Text → Bool
is_single_file dataset_path = not (is_empty (suffix (rstrip b'/' dataset_path)))
