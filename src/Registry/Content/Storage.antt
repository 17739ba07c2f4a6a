-- ===== src/Registry/Content/Storage.antt =====
-- Where a dataset is stored, and what the worker takes that path for.
use krmed_cloud_services.Base.{
  Text, ℕ, ◌≡◌, ◌⊎◌, refl, ap, sym, subst, ◌∙◌, Bool, true, false, not, ◌&&◌, ◌||◌, Option, none,
  some, [], ◌∷◌, ◌++◌, codes, is_empty, All, All-imp, leb, ◌==◌, arith, Bool-cases, Option-cases,
  inl, inr,
}
use mathlib.Core.List.{append_assoc, append-nil}
use krmed_cloud_services.Paths.{
  suffix, suffix_of_name, from_last_dot, or_empty, name_of, is_dropped, rstrip,
}
use krmed_cloud_services.Paths.Names.{IsSlashFree, name_of-join, name_of-IsName}
use krmed_cloud_services.Paths.Suffix.{name_of-rstrip, name_of-slash}
use krmed_cloud_services.Validation.{is_single_file}
use krmed_cloud_services.Registry.Content.{
  Source, single_file, whole_directory, base_path, storage_of,
}

-- A digit of `hexdigest`.
abbrev pub is_hex_digit : ℕ → Bool
is_hex_digit c = (leb b'0' c && leb c b'9') || (leb b'a' c && leb c b'f')

pub record IsHex (t : Text) : Type 0 where
  pub nonempty : is_empty t ≡ false
  pub digits : All (λ c. is_hex_digit c ≡ true) t

abbrev IsDotFree : Text → Type 0
IsDotFree t = All (λ c. (c == b'.') ≡ false) t

IsHex-IsSlashFree : (t : Text) → All (λ c. is_hex_digit c ≡ true) t → IsSlashFree t
IsHex-IsSlashFree t h = All-imp t (λ c d. ground arith) h

IsHex-IsDotFree : (t : Text) → All (λ c. is_hex_digit c ≡ true) t → IsDotFree t
IsHex-IsDotFree t h = All-imp t (λ c d. ground arith) h

-- A text with a dot, from its last dot on, is itself.
from_last_dot_self : (t s : Text) → from_last_dot t ≡ some s → from_last_dot s ≡ some s
unfolding from_last_dot
from_last_dot_self [] s h = cc
from_last_dot_self (c ∷ t) s h = elim (Option-cases (from_last_dot t)) [
  | inr (u, found) ↦ from_last_dot_self t s (ground arith)
  | inl last ↦ elim (Bool-cases (c == b'.')) [
    | inl dot ↦
        let e : c ∷ t ≡ s = ground arith in
        subst (λ u. from_last_dot u ≡ some u) e (rw (last, dot) refl)
    | inr other' ↦ absurd (ground arith)
  ]
]

from_last_dot-IsSlashFree : (t s : Text) → IsSlashFree t → from_last_dot t ≡ some s → IsSlashFree s
unfolding from_last_dot
from_last_dot-IsSlashFree [] s free h = cc
from_last_dot-IsSlashFree (c ∷ t) s free h = elim (Option-cases (from_last_dot t)) [
  | inr (u, found) ↦ from_last_dot-IsSlashFree t s free.1 (ground arith)
  | inl last ↦ elim (Bool-cases (c == b'.')) [
    | inl dot ↦ let e : c ∷ t ≡ s = ground arith in subst IsSlashFree e free
    | inr other' ↦ absurd (ground arith)
  ]
]

-- A suffix: none, or a dot with something behind it that holds no other dot, and no slash.
pub record IsExtension (e : Text) : Type 0 where
  pub no_slash : IsSlashFree e
  pub own : (e ≡ []) ⊎ ((from_last_dot e ≡ some e) × (or_empty (some e) ≡ e))

or_empty-IsExtension :
    (o : Option Text) (e : Text)
    → ((s : Text) → o ≡ some s → IsSlashFree s × (from_last_dot s ≡ some s))
    → or_empty o ≡ e
    → IsExtension e
unfolding or_empty
or_empty-IsExtension none e h same =
    subst IsExtension same (record { no_slash = tt; own = inl refl })
or_empty-IsExtension (some []) e h same =
    subst IsExtension same (record { no_slash = tt; own = inl refl })
or_empty-IsExtension (some (d ∷ [])) e h same =
    subst IsExtension same (record { no_slash = tt; own = inl refl })
or_empty-IsExtension (some (d ∷ c ∷ t)) e h same =
    let (free, self) = h (d ∷ c ∷ t) refl in
    subst IsExtension same (record { no_slash = free; own = inr (self, refl) })

suffix_of_name-IsExtension : (n : Text) → IsSlashFree n → IsExtension (suffix_of_name n)
unfolding suffix_of_name
suffix_of_name-IsExtension [] free = record { no_slash = tt; own = inl refl }
suffix_of_name-IsExtension (c ∷ t) free =
    or_empty-IsExtension (from_last_dot t) _
      (λ s found. (from_last_dot-IsSlashFree t s free.1 found, from_last_dot_self t s found)) refl

suffix-IsExtension : (path : Text) → IsExtension (suffix path)
unfolding suffix
suffix-IsExtension path = suffix_of_name-IsExtension (name_of path) (name_of-IsName path).no_slash

from_last_dot-dotless : (v : Text) → IsDotFree v → from_last_dot v ≡ none
unfolding from_last_dot
from_last_dot-dotless [] h = refl
from_last_dot-dotless (c ∷ v) h = rw (from_last_dot-dotless v h.1, h.0) refl

from_last_dot-append : (v e : Text) → from_last_dot e ≡ some e → from_last_dot (v ++ e) ≡ some e
unfolding from_last_dot
from_last_dot-append [] e h = h
from_last_dot-append (c ∷ v) e h = rw (from_last_dot-append v e h) refl

-- An extension behind a hexadecimal text is the suffix of the whole.
suffix_of_hex : (v e : Text) → IsHex v → IsExtension e → suffix_of_name (v ++ e) ≡ e
unfolding suffix_of_name
suffix_of_hex [] e h x = absurd (ground (arith, h.nonempty))
suffix_of_hex (c ∷ v) e h x = elim x.own [
  | inl none' ↦
      rw (none', append-nil)
        (rw (from_last_dot-dotless v (IsHex-IsDotFree v h.digits.1)) (unfold or_empty in refl))
  | inr (self, kept) ↦ rw (from_last_dot-append v e self) kept
]

hex_counts : (v e : Text) → IsHex v → is_dropped (v ++ e) ≡ false
unfolding is_dropped
hex_counts [] e h = absurd (ground (arith, h.nonempty))
hex_counts (c ∷ []) [] h = let d = h.digits.0 in ground arith
hex_counts (c ∷ []) (x ∷ e) h = refl
hex_counts (c ∷ d ∷ v) e h = refl

IsSlashFree-append : (v e : Text) → IsSlashFree v → IsSlashFree e → IsSlashFree (v ++ e)
IsSlashFree-append [] e hv he = he
IsSlashFree-append (c ∷ v) e hv he = (hv.0, IsSlashFree-append v e hv.1 he)

-- The path of a version and an extension, as what stands before the last slash and behind it.
base_path_split :
    (name v e : Text) → base_path name v ++ e ≡ (codes "datasets/" ++ name) ++ b'/' ∷ (v ++ e)
base_path_split name v e =
    append_assoc (codes "datasets/") (name ++ (codes "/" ++ v)) e
    ∙ ap (λ t. codes "datasets/" ++ t) (append_assoc name (codes "/" ++ v) e)
    ∙ sym (append_assoc (codes "datasets/") name (b'/' ∷ (v ++ e)))

name_of-base_path :
    (name v e : Text) → IsHex v → IsSlashFree e → name_of (base_path name v ++ e) ≡ v ++ e
name_of-base_path name v e h free =
    ap name_of (base_path_split name v e)
    ∙ name_of-join (codes "datasets/" ++ name) (v ++ e)
        (IsSlashFree-append v e (IsHex-IsSlashFree v h.digits) free) (hex_counts v e h)

suffix-base_path :
    (name v e : Text) → IsHex v → IsExtension e → suffix (rstrip b'/' (base_path name v ++ e)) ≡ e
unfolding suffix
suffix-base_path name v e h x =
    ap suffix_of_name
      (name_of-rstrip (base_path name v ++ e) ∙ name_of-base_path name v e h x.no_slash)
    ∙ suffix_of_hex v e h x

IsExtension-nil : IsExtension []
IsExtension-nil = record { no_slash = tt; own = inl refl }

suffix-folder :
    (name v : Text) → IsHex v → suffix (rstrip b'/' (base_path name v ++ codes "/")) ≡ []
unfolding suffix
suffix-folder name v h =
    ap suffix_of_name (
      name_of-rstrip (base_path name v ++ codes "/")
      ∙ name_of-slash (base_path name v)
      ∙ ap name_of (sym (append-nil (base_path name v)))
      ∙ name_of-base_path name v [] h tt)
    ∙ suffix_of_hex v [] h IsExtension-nil

-- What the worker downloads as one object.
abbrev pub has_extension : Source → Bool
has_extension (single_file file content) = not (is_empty (suffix file))
has_extension (whole_directory entries) = false

-- The path that the script registers for a dataset whose version is a hexadecimal text, and not
-- empty, is one that the worker downloads as a single object exactly when the dataset is a file whose
-- name has a suffix: a directory is downloaded as a prefix, and so is a file without a suffix, which
-- the script registers as an object.
pub storage_of-is_single_file :
    (name version : Text) (source : Source)
    → IsHex version
    → is_single_file (storage_of name version source).0 ≡ has_extension source
unfolding is_single_file storage_of
storage_of-is_single_file name version (single_file file content) h =
    ap (λ e. not (is_empty e))
      (suffix-base_path name version (suffix file) h (suffix-IsExtension file))
storage_of-is_single_file name version (whole_directory entries) h =
    ap (λ e. not (is_empty e)) (suffix-folder name version h)
