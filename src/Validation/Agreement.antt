-- ===== src/Validation/Agreement.antt =====
-- The validation and the download agree on which datasets are single files.
use krmed_cloud_services.Base.{
  Text, ◌≡◌, refl, ap, sym, ◌∙◌, Bool, true, false, not, Option, none, some, [], ◌∷◌, is_empty,
}
use krmed_cloud_services.Paths.{suffix, suffix_of_name}
use krmed_cloud_services.Paths.Suffix.{is_empty-bare, name_of-rstrip}
use krmed_cloud_services.Validation.{or_none, bare_suffix, detect_format, is_single_file}

abbrev pub is_some {ℓ} : {A : Type ℓ} → Option A → Bool
is_some none = false
is_some (some a) = true

is_some-or_none : (t : Text) → is_some (or_none t) ≡ not (is_empty t)
is_some-or_none [] = refl
is_some-or_none (c ∷ t) = refl

-- A dataset key has a declared format exactly when the store downloads it as a single file.
pub detect_format-is_single_file :
    (path : Text) → is_some (detect_format path) ≡ is_single_file path
unfolding detect_format is_single_file bare_suffix
detect_format-is_single_file path =
    is_some-or_none (bare_suffix path)
    ∙ ap not (is_empty-bare path)
    ∙ (unfold suffix in ap (λ n. not (is_empty (suffix_of_name n))) (sym (name_of-rstrip path)))
