-- ===== src/Trainer/Validated.antt =====
-- From the gate to the trainer: what passes the validation is downloaded as one file, and loaded.
use krmed_cloud_services.Base.{
  Text, ◌≡◌, refl, ap, sym, subst, ◌∙◌, true, false, Option, none, some, [], ◌∷◌, codes, contains,
  text_eq_iff, is_empty, arith, Bool-cases, inl, inr,
}
use krmed_cloud_services.Effects.{ok, pure, raise}
use krmed_cloud_services.Effects.Rules.{Triple-then, after_ok, any_run, Anything}
use krmed_cloud_services.Paths.{lower, lstrip, suffix, suffix_of_name, name_of}
use krmed_cloud_services.Paths.Names.{name_of_idempotent}
use krmed_cloud_services.Validation.{
  or_none, bare_suffix, detect_format, judge, validate_dataset_format, supported_formats,
  is_single_file,
}
use krmed_cloud_services.Validation.Agreement.{is_some, detect_format-is_single_file}
use krmed_cloud_services.Stores.{Client, LocalPath, inside, download, download_single}
use krmed_cloud_services.Stores.Loops.{Gets}
use krmed_cloud_services.Trainer.{format_by_suffix, path_suffix, bare, is_file, dataset_load_spec}
use krmed_cloud_services.Trainer.Loading.{spec_of_loads}

judged :
    {S : Type 0} (path : Text) (o : Option Text) (fmt : Text) (s : S)
    → judge path o s ≡ (ok (some fmt), s)
    → (o ≡ some fmt) × (contains fmt supported_formats ≡ true)
unfolding judge pure raise
judged path none fmt s h = absurd (ground arith)
judged path (some f) fmt s h = elim (Bool-cases (contains f supported_formats)) [
  | inl good ↦
      let e : f ≡ fmt = ground arith in
      (ap some e, subst (λ t. contains t supported_formats ≡ true) e good)
  | inr bad ↦ absurd (ground arith)
]

supported_loads :
    (fmt : Text) → contains fmt supported_formats ≡ true → format_by_suffix fmt ≡ some fmt
unfolding contains format_by_suffix
supported_loads fmt h = ground (
  arith,
  text_eq_iff (codes "csv") fmt,
  text_eq_iff (codes "json") fmt,
  text_eq_iff (codes "parquet") fmt,
  text_eq_iff fmt (codes "csv"),
  text_eq_iff fmt (codes "json"),
  text_eq_iff fmt (codes "jsonl"),
  text_eq_iff fmt (codes "parquet"),
)

of_empty : (t : Text) → is_empty t ≡ true → t ≡ []
of_empty [] h = refl
of_empty (c ∷ t) h = cc

or_none_inv : (t fmt : Text) → or_none t ≡ some fmt → t ≡ fmt
or_none_inv [] fmt h = cc
or_none_inv (c ∷ t) fmt h = cc

nameless : (n : Text) → n ≡ [] → or_none (lstrip b'.' (lower (suffix_of_name n))) ≡ none
unfolding lstrip lower suffix_of_name
nameless n e = rw e refl

-- A path with a format has a name.
named : (path fmt : Text) → detect_format path ≡ some fmt → is_empty (name_of path) ≡ false
unfolding detect_format bare_suffix suffix
named path fmt h = elim (Bool-cases (is_empty (name_of path))) [
  | inl empty ↦ absurd (cc (nameless (name_of path) (of_empty (name_of path) empty)))
  | inr some_name ↦ some_name
]

path_suffix_named :
    (dir path : Text)
    → is_empty (name_of path) ≡ false
    → path_suffix (inside dir (name_of path)) ≡ suffix path
unfolding path_suffix suffix
path_suffix_named dir path h = rw (name_of_idempotent path) (rw h refl)

single_target :
    {S : Type 0} (client : Client S) (path dir : Text)
    → is_single_file path ≡ true
    → Gets (download client path dir) (λ p _. p ≡ inside dir (name_of path))
unfolding download download_single pure
single_target client path dir one =
    Triple-then Anything _ _ (any_run _)
      (rw one (Triple-then Anything _ _ (any_run _) (record { at = λ s h. refl })))

target_format :
    (dir path fmt : Text) → detect_format path ≡ some fmt → bare (inside dir (name_of path)) ≡ fmt
unfolding bare
target_format dir path fmt h =
    ap (λ t. lstrip b'.' (lower t)) (path_suffix_named dir path (named path fmt h))
    ∙ (unfold detect_format bare_suffix in or_none_inv _ fmt h)

-- When a dataset path passes the validation with a format, and its download returns, then the
-- download is one path, and if a file stands there, the trainer loads that file, alone, as that very
-- format.
pub validated_loads :
    {S T : Type 0} (client : Client S) (path dir fmt : Text) (w : T) (s t : S) (p : LocalPath)
    → validate_dataset_format path w ≡ (ok (some fmt), w)
    → download client path dir s ≡ (ok p, t)
    → (u : T) → dataset_load_spec p is_file u ≡ (ok (fmt, p ∷ []), u)
unfolding validate_dataset_format dataset_load_spec
validated_loads client path dir fmt w s t p valid run u =
    let (detected, good) = judged path (detect_format path) fmt w valid in
    let one = sym (detect_format-is_single_file path) ∙ ap is_some detected in
    let target = after_ok _ _ p t ((single_target client path dir one).at s tt) run in
    spec_of_loads p [] fmt u (
      ap (λ q. format_by_suffix (bare q)) target
          ∙ ap format_by_suffix (target_format dir path fmt detected)
          ∙ supported_loads fmt good,
      tt,
    )
