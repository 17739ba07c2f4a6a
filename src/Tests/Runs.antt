-- ===== src/Tests/Runs.antt =====
-- Runs of the model on inputs that the code handles with care.
use krmed_cloud_services.Base.{◌≡◌, refl, none, some, [], ◌∷◌, codes, text_eq}
use krmed_cloud_services.Schema.Uuid.{uuid_of, strip, is_space}
use krmed_cloud_services.Paths.{lstrip, lower, suffix, split}
use krmed_cloud_services.Config.{
  negsuc, int_of, get, stripped, gpu_ids_env, loaded, config_error, no_gpu_ids, default_gpu_ids,
}
use krmed_cloud_services.Validation.{detect_format}

-- The extension counts in any case, a hidden file has none, and a slash at the end is no part.
format_of_csv : detect_format (codes "datasets/d/v.CSV/") ≡ some (codes "csv")
unfolding detect_format lstrip lower suffix
format_of_csv = refl

format_of_hidden : detect_format (codes "datasets/d/.csv") ≡ none
unfolding detect_format lstrip lower suffix
format_of_hidden = refl

format_of_prefix : detect_format (codes "datasets/d.v/x/") ≡ none
unfolding detect_format lstrip lower suffix
format_of_prefix = refl

-- A text with too few digits is no UUID.
uuid_of_short : uuid_of (codes "00000000-0000-0000-0000-0000000000f") ≡ none
unfolding uuid_of
uuid_of_short = refl

-- `int` takes spaces, a sign and single underscores.
int_of_spaced : int_of (codes " -1_0 ") ≡ some (negsuc 9)
unfolding int_of
int_of_spaced = refl

int_of_underscores : int_of (codes "1__0") ≡ none
unfolding int_of
int_of_underscores = refl

-- Commas alone name no GPU, and spaces alone are the default.
gpus_of_commas :
    gpu_ids_env ((codes "G", codes ",,") ∷ []) (codes "G") default_gpu_ids
    ≡ config_error (no_gpu_ids (codes "G") (codes ",,"))
unfolding gpu_ids_env get text_eq strip is_space stripped split
gpus_of_commas = refl

gpus_of_spaces :
    gpu_ids_env ((codes "G", codes "  ") ∷ []) (codes "G") default_gpu_ids ≡ loaded (codes "0" ∷ [])
unfolding gpu_ids_env get text_eq strip is_space stripped split
gpus_of_spaces = refl
