-- ===== src/Guardrail.antt =====
-- ml-platform/worker/crucible_worker/guardrail.py: the size gate before any download, and the hint
-- that ml-platform/scripts/register_model.py derives from thresholds of its own.
use krmed_cloud_services.Base.{
  Text, ℕ, ◌≤◌, ◌<◌, ◌≢◌, text_eq_iff, ◌≡◌, ◌↔◌, refl, ap, Bool-cases, inl, inr, Bool, false,
  Option, none, some, codes, text_eq, ltb, leb, if◌then◌else◌, arith,
}
use krmed_cloud_services.Effects.{
  Exn, ok, oversized_model, flagged_unsupported, too_many_params, Exec, pure, raise,
}

abbrev pub comfortable_max_params : ℕ
comfortable_max_params = 8500000000

abbrev pub tight_max_params : ℕ
tight_max_params = 15000000000

-- `vram_hint == "unsupported"`
unfoldable pub is_unsupported : Option Text → Bool
unfolding text_eq
is_unsupported none = false
is_unsupported (some hint) = text_eq hint (codes "unsupported")

-- `param_count is not None and param_count > TIGHT_MAX_PARAMS`
unfoldable pub too_large : Option ℕ → Bool
too_large none = false
too_large (some n) = ltb tight_max_params n

-- The exception of `check_model_fits`, if it raises one.
unfoldable pub misfit : Option ℕ → Option Text → Option Exn
misfit param_count vram_hint =
    if is_unsupported vram_hint
    then some (oversized_model flagged_unsupported)
    else if too_large param_count
    then elim param_count [ none ↦ none | some n ↦ some (oversized_model (too_many_params n)) ]
    else none

abbrev pub raise_if : {S : Type 0} → Option Exn → Exec S (Unit {0})
raise_if none = pure tt
raise_if (some e) = raise e

unfoldable pub check_model_fits : {S : Type 0} → Option ℕ → Option Text → Exec S (Unit {0})
check_model_fits param_count vram_hint = raise_if (misfit param_count vram_hint)

-- The thresholds of scripts/register_model.py, kept in step by hand with those above.
abbrev registered_comfortable_max_params : ℕ
registered_comfortable_max_params = 8500000000

abbrev registered_tight_max_params : ℕ
registered_tight_max_params = 15000000000

-- `vram_hint_for` of the registration script.
unfoldable pub vram_hint_for : Option ℕ → Option Text
vram_hint_for none = none
vram_hint_for (some n) =
    if leb n registered_comfortable_max_params
    then some (codes "comfortable")
    else if leb n registered_tight_max_params
    then some (codes "tight")
    else some (codes "unsupported")

misfit-vram_hint_for :
    (n : ℕ) → (misfit (some n) (vram_hint_for (some n)) ≡ none) ↔ (n ≤ tight_max_params)
unfolding misfit vram_hint_for is_unsupported too_large
misfit-vram_hint_for n = ground arith

check_passes : {S : Type 0} (s : S) (o : Option Exn) → (raise_if o s ≡ (ok tt, s)) ↔ (o ≡ none)
unfolding pure raise
check_passes s none = (λ _. refl, λ _. refl)
check_passes s (some e) = (λ h. cc, λ h. cc)

pub check_model_fits-vram_hint_for :
    {S : Type 0} (n : ℕ) (s : S)
    → (check_model_fits (some n) (vram_hint_for (some n)) s ≡ (ok tt, s)) ↔ (n ≤ tight_max_params)
unfolding check_model_fits
check_model_fits-vram_hint_for n s =
    let gate = check_passes s (misfit (some n) (vram_hint_for (some n))) in
    let size = misfit-vram_hint_for n in (λ h. size.0 (gate.0 h), λ h. gate.1 (size.1 h))

-- A size within the limit of the card, or none that is known.
abbrev pub Fits : Option ℕ → Type 0
Fits none = Unit
Fits (some n) = n ≤ tight_max_params

misfit_lem :
    (count : Option ℕ) (hint : Option Text)
    → (misfit count hint ≡ none) ↔ ((is_unsupported hint ≡ false) × Fits count)
unfolding misfit too_large
misfit_lem none hint = ground arith
misfit_lem (some n) hint = ground arith

flagged : (hint : Option Text) → (is_unsupported hint ≡ false) ↔ (hint ≢ some (codes "unsupported"))
unfolding is_unsupported
flagged none = (λ h e. cc, λ h. refl)
flagged (some hint) = (
  λ h e. ground (arith, (text_eq_iff hint (codes "unsupported")).1 cc),
  λ h. elim (Bool-cases (text_eq hint (codes "unsupported"))) [
    | inl same ↦ absurd (h (ap some ((text_eq_iff hint (codes "unsupported")).0 same)))
    | inr other ↦ other
  ],
)

hinted : (n : ℕ) → (vram_hint_for (some n) ≡ some (codes "unsupported")) ↔ (tight_max_params < n)
unfolding vram_hint_for
hinted n = ground arith

-- A model passes the gate, which then changes nothing, exactly when its hint is not that of an
-- unsupported model and its size is unknown or at most the limit of the gate; and the hint that
-- registration derives from a known size is that of an unsupported model exactly when the size is
-- above the limit of the gate.
pub check_model_fits_iff :
    {S : Type 0} (count : Option ℕ) (hint : Option Text) (n : ℕ) (s : S)
    → ((check_model_fits count hint s ≡ (ok tt, s))
        ↔ ((hint ≢ some (codes "unsupported")) × Fits count))
      × ((vram_hint_for (some n) ≡ some (codes "unsupported")) ↔ (tight_max_params < n))
unfolding check_model_fits
check_model_fits_iff count hint n s =
    let gate = check_passes s (misfit count hint) in
    let (fits, misfits) = misfit_lem count hint in
    let (marked, unmarked) = flagged hint in
    (
      (
        λ h. let (clear, small) = fits (gate.0 h) in (marked clear, small),
        λ h. gate.1 (misfits (unmarked h.0, h.1)),
      ),
      hinted n,
    )
