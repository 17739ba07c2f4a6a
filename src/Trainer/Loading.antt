-- ===== src/Trainer/Loading.antt =====
-- Which lists of files have a load specification, and that a validated dataset has one.
use krmed_cloud_services.Base.{
  Text, ◌≡◌, ◌↔◌, ◌⊎◌, ◌≢◌, refl, ap, sym, subst, ◌∙◌, true, false, some, List, [], ◌∷◌, contains,
  text_eq_iff, text_eq_refl, is_empty, if◌then◌else◌, All, All-imp, arith, Bool-cases, Option-cases,
  inl, inr,
}
use krmed_cloud_services.Effects.{ok, pure, raise}
use krmed_cloud_services.Stores.{LocalPath}
use krmed_cloud_services.Stores.Listing.{contained}
use krmed_cloud_services.Trainer.{
  format_by_suffix, bare, is_dir, add, suffixes, unknown, formats, single, all_known, spec_of,
  dataset_load_spec, with_unknown, with_format,
}

-- Every suffix of the list is loaded as this format.
abbrev Loads : Text → List Text → Type 0
Loads fmt l = All (λ s. format_by_suffix s ≡ some fmt) l

List-cases : {A : Type 0} (l : List A) → (l ≡ []) ⊎ ((x : A) × (xs : List A) × (l ≡ x ∷ xs))
List-cases [] = inl refl
List-cases (x ∷ xs) = inr (x, xs, refl)

module _ (P : Text → Type 0) where
  All-add : (x : Text) (xs : List Text) → P x → All P xs → All P (add x xs)
  unfolding add
  All-add x xs p ps = elim (Bool-cases (contains x xs)) [
    | inl there ↦ rw there ps
    | inr new ↦ rw new (p, ps)
  ]

  All-unadd : (x : Text) (xs : List Text) → All P (add x xs) → P x × All P xs
  unfolding add
  All-unadd x xs h = elim (Bool-cases (contains x xs)) [
    | inl there ↦
        let all = subst (λ b. All P (if b then xs else x ∷ xs)) there h in
        (contained P x xs all there, all)
    | inr new ↦ subst (λ b. All P (if b then xs else x ∷ xs)) new h
  ]

  All-suffixes : (files : List LocalPath) → All (λ p. P (bare p)) files → All P (suffixes files)
  unfolding suffixes
  All-suffixes [] h = tt
  All-suffixes (p ∷ ps) h = All-add (bare p) (suffixes ps) h.0 (All-suffixes ps h.1)

  All-bare : (files : List LocalPath) → All P (suffixes files) → All (λ p. P (bare p)) files
  unfolding suffixes
  All-bare [] h = tt
  All-bare (p ∷ ps) h =
      let (first, rest) = All-unadd (bare p) (suffixes ps) h in (first, All-bare ps rest)

unknown_none : (fmt : Text) (l : List Text) → Loads fmt l → unknown l ≡ []
unfolding unknown
unknown_none fmt [] h = refl
unknown_none fmt (s ∷ ss) h = rw (h.0, with_unknown) (unknown_none fmt ss h.1)

formats_one : (fmt s : Text) (ss : List Text) → Loads fmt (s ∷ ss) → formats (s ∷ ss) ≡ fmt ∷ []
unfolding formats add contains
formats_one fmt s [] h = rw (h.0, with_format) refl
formats_one fmt s (t ∷ ts) h =
    rw (h.0, with_format) (rw (formats_one fmt t ts h.1) (rw (text_eq_refl fmt) refl))

contains-add : (f g : Text) (l : List Text) → contains f l ≡ true → contains f (add g l) ≡ true
unfolding add contains
contains-add f g l h = ground arith

contains-add_self : (f : Text) (l : List Text) → contains f (add f l) ≡ true
unfolding add contains
contains-add_self f l = ground (arith, text_eq_refl f)

formats-cons :
    (s f : Text) (ss : List Text)
    → format_by_suffix s ≡ some f
    → formats (s ∷ ss) ≡ add f (formats ss)
unfolding formats
formats-cons s f ss h = rw (h, with_format) refl

unknown_tail :
    (s f : Text) (ss : List Text)
    → format_by_suffix s ≡ some f
    → unknown (s ∷ ss) ≡ []
    → unknown ss ≡ []
unfolding unknown
unknown_tail s f ss h known = ground arith

-- Where no suffix is unknown, the format of each is among the formats.
abbrev HasFormat : List Text → Text → Type 0
HasFormat found s = (f : Text) × (format_by_suffix s ≡ some f) × (contains f found ≡ true)

known_formats : (l : List Text) → unknown l ≡ [] → All (HasFormat (formats l)) l
known_formats [] h = tt
known_formats (s ∷ ss) h = elim (Option-cases (format_by_suffix s)) [
  | inl bad ↦ absurd (unfold unknown in ground arith)
  | inr (f, good) ↦
      let more = formats-cons s f ss good in
      (
        (f, good, ap (contains f) more ∙ contains-add_self f (formats ss)),
        All-imp ss
            (λ t (g, e, there). (g, e, ap (contains g) more ∙ contains-add g f (formats ss) there))
            (known_formats ss (unknown_tail s f ss good h)),
      )
]

only_one : (f g : Text) → contains f (g ∷ []) ≡ true → g ≡ f
unfolding contains
only_one f g h = (text_eq_iff g f).0 (ground arith)

Loads-single : (fmt : Text) (l : List Text) → unknown l ≡ [] → formats l ≡ fmt ∷ [] → Loads fmt l
Loads-single fmt l known one =
    All-imp l
      (λ s (f, e, there). e ∙ ap some (sym (only_one f fmt (ap (contains f) (sym one) ∙ there))))
      (known_formats l known)

one_format :
    {S : Type 0} (fs : List Text) (files : List LocalPath) (fmt : Text) (s : S)
    → single fs files s ≡ (ok (fmt, files), s)
    → fs ≡ fmt ∷ []
unfolding raise pure
one_format [] files fmt s e = absurd (ground arith)
one_format (f ∷ []) files fmt s e = ground arith
one_format (f ∷ g ∷ more) files fmt s e = absurd (ground arith)

spec_inv :
    {S : Type 0} (l : List Text) (files : List LocalPath) (fmt : Text) (s : S)
    → all_known (unknown l) l files s ≡ (ok (fmt, files), s)
    → (unknown l ≡ []) × (formats l ≡ fmt ∷ [])
unfolding raise
spec_inv l files fmt s h = elim (List-cases (unknown l)) [
  | inl known ↦ (
    known,
    one_format (formats l) files fmt s
        (subst (λ u. all_known u l files s ≡ (ok (fmt, files), s)) known h),
  )
  | inr (u, us, bad) ↦
      let refused = subst (λ v. all_known v l files s ≡ (ok (fmt, files), s)) bad h in
      absurd (ground arith)
]

suffixes_nonempty : (p : LocalPath) (ps : List LocalPath) → suffixes (p ∷ ps) ≢ []
unfolding suffixes
suffixes_nonempty p ps e =
    let there = ap (contains (bare p)) (sym e) ∙ contains-add_self (bare p) (suffixes ps) in
    unfold contains in cc

formats-Loads : (fmt : Text) (l : List Text) → l ≢ [] → Loads fmt l → formats l ≡ fmt ∷ []
formats-Loads fmt [] some_suffix h = absurd (some_suffix refl)
formats-Loads fmt (s ∷ ss) some_suffix h = formats_one fmt s ss h

pub spec_of_loads :
    {S : Type 0} (p : LocalPath) (ps : List LocalPath) (fmt : Text) (s : S)
    → All (λ q. format_by_suffix (bare q) ≡ some fmt) (p ∷ ps)
    → spec_of (p ∷ ps) s ≡ (ok (fmt, p ∷ ps), s)
unfolding spec_of pure
spec_of_loads p ps fmt s h =
    let found = suffixes (p ∷ ps) in
    let loads = All-suffixes (λ t. format_by_suffix t ≡ some fmt) (p ∷ ps) h in
    ap (λ u. all_known u found (p ∷ ps) s) (unknown_none fmt found loads)
    ∙ ap (λ f. single f (p ∷ ps) s) (formats-Loads fmt found (suffixes_nonempty p ps) loads)

-- A directory is loaded as a format exactly when it has a file and the extension of each of its files
-- stands for that format; all its files are loaded.
pub dataset_load_spec_iff :
    {S : Type 0} (path : LocalPath) (files : List LocalPath) (fmt : Text) (s : S)
    → (dataset_load_spec path (is_dir files) s ≡ (ok (fmt, files), s))
      ↔ ((is_empty files ≡ false) × All (λ p. format_by_suffix (bare p) ≡ some fmt) files)
unfolding dataset_load_spec spec_of raise
dataset_load_spec_iff path [] fmt s = (λ h. absurd (ground arith), λ h. absurd (ground arith))
dataset_load_spec_iff path (p ∷ ps) fmt s = (
  λ h.
      let (known, one) = spec_inv (suffixes (p ∷ ps)) (p ∷ ps) fmt s h in
      (
        refl,
        All-bare (λ t. format_by_suffix t ≡ some fmt) (p ∷ ps)
            (Loads-single fmt (suffixes (p ∷ ps)) known one),
      ),
  λ h. spec_of_loads p ps fmt s h.1,
)
