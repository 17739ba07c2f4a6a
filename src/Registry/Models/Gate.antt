-- ===== src/Registry/Models/Gate.antt =====
-- What a run of register_model.py means for the worker.
use krmed_cloud_services.Base.{
  Text, ℕ, ◌+◌, ◌≡◌, ◌↔◌, refl, ap, ◌∙◌, Bool, true, false, ◌&&◌, Option, none, some, List, [], ◌∷◌,
  ◌++◌, map, find, text_eq, text_eq_refl, ◌==◌, All, arith,
}
use krmed_cloud_services.Effects.{ok, pure}
use krmed_cloud_services.Config.{Environ, missing_keys}
use krmed_cloud_services.Guardrail.{
  misfit, is_unsupported, too_large, check_model_fits, vram_hint_for,
  check_model_fits-vram_hint_for, Fits,
}
use krmed_cloud_services.World.{ModelRow}
use krmed_cloud_services.Repository.{select_model, to_meta, meta_of, ModelMeta}
use krmed_cloud_services.Registry.{
  ModelEntry, ModelTable, registered, register_model, insert_model, same_model, new_model,
  clear_defaults, make_default,
}
use krmed_cloud_services.Registry.Defaults.{IsFresh}
use krmed_cloud_services.Registry.Models.{
  Arguments, Lookup, finished, fetched, fetch_hf_metadata, label, repo_name, finish_of, after_fetch,
  required_env, register_main, as_row,
}

abbrev is_default_row : Text → ModelRow → Bool
is_default_row repo r = (text_eq r.hf_repo_id repo && r.ready) && r.is_default

selected_last :
    (repo : Text) (id : ℕ) (n : ModelEntry) (rows : List ModelEntry)
    → n.id ≡ id
    → n.hf_repo_id ≡ repo
    → n.ready ≡ true
    → All (λ r. (r.id == id) ≡ false) rows
    → find
        (is_default_row repo)
        (map as_row (make_default id (clear_defaults repo id (rows ++ n ∷ []))))
      ≡ some (as_row (record n { is_default = true }))
unfolding clear_defaults make_default as_row
selected_last repo id n [] e f g h = ground (arith, text_eq_refl repo)
selected_last repo id n (r ∷ rows) e f g h =
    ground (arith, selected_last repo id n rows e f g h.1, h.0)

-- The row that a run which sets the default leaves for the repository.
abbrev pub default_row : Arguments → Text → Option ℕ → ℕ → ModelEntry
default_row args sha count id =
    record (new_model id args.repo_id sha (label args.display_name (repo_name args.repo_id)) count
      (vram_hint_for count)) { is_default = true }

run_lem :
    (env : Environ) (model_info : Lookup) (args : Arguments) (sha : Text) (count : Option ℕ)
    (t : ModelTable)
    → missing_keys env required_env ≡ []
    → fetch_hf_metadata model_info args.repo_id args.revision ≡ fetched (sha, count)
    → register_main env model_info args t ≡ after_fetch args (fetched (sha, count)) t
unfolding register_main
run_lem env model_info args sha count t there answer = rw (there, answer) refl

new_default :
    (repo sha name : Text) (count : Option ℕ) (hint : Option Text) (t : ModelTable)
    → IsFresh t
    → find (same_model repo sha) t.rows ≡ none
    → (u : ModelTable) × (register_model repo sha name count hint true t
        ≡ (registered t.next_id, u))
      × (select_model repo (map as_row u.rows)
          ≡ some (
              as_row (record (new_model t.next_id repo sha name count hint) { is_default = true })))
unfolding register_model insert_model select_model
new_default repo sha name count hint t fresh new =
    let n = new_model t.next_id repo sha name count hint in
    (
      record {
        rows = make_default t.next_id (clear_defaults repo t.next_id (t.rows ++ n ∷ []));
        next_id = t.next_id + 1;
      },
      rw new refl,
      rw (selected_last repo t.next_id n t.rows refl refl refl fresh) refl,
    )

gate_lem :
    {S : Type 0} (count : Option ℕ) (s : S)
    → (check_model_fits count (vram_hint_for count) s ≡ (ok tt, s)) ↔ Fits count
gate_lem none s =
    unfold check_model_fits misfit is_unsupported too_large vram_hint_for pure in
    (λ _. tt, λ _. refl)
gate_lem (some n) s = check_model_fits-vram_hint_for n s

-- What the worker does with a row of the repository: it reads this revision, and passes it exactly if it fits.
pub record Serves {S : Type 0} (repo sha : Text) (count : Option ℕ) (s : S) (rows : List ModelRow)
    : Type 0 where
  pub meta : ModelMeta
  pub read : meta_of (select_model repo rows) ≡ some meta
  pub revision : meta.revision ≡ sha
  pub gate : (check_model_fits meta.param_count meta.vram_hint s ≡ (ok tt, s)) ↔ Fits count

-- With `DATABASE_URL` set, an answer of the hub that names a commit, and a table in which no row has
-- the next id of the sequence and none is this revision: register_model.py with --set-default ends
-- with that id; the worker that then looks the repository up reads this very revision, and its size
-- gate passes it exactly when the number of parameters is unknown or within the limit.
pub register_main-gate :
    {S : Type 0} (env : Environ) (model_info : Lookup) (args : Arguments) (sha : Text)
    (count : Option ℕ) (t : ModelTable) (s : S)
    → missing_keys env required_env ≡ []
    → fetch_hf_metadata model_info args.repo_id args.revision ≡ fetched (sha, count)
    → args.set_default ≡ true
    → IsFresh t
    → find (same_model args.repo_id sha) t.rows ≡ none
    → (u : ModelTable) × (register_main env model_info args t ≡ (finished t.next_id, u))
      × Serves args.repo_id sha count s (map as_row u.rows)
register_main-gate env model_info args sha count t s there answer sets fresh new =
    let name = label args.display_name (repo_name args.repo_id) in
    let hint = vram_hint_for count in
    let (u, run, selected) = new_default args.repo_id sha name count hint t fresh new in
    (
      u,
      run_lem env model_info args sha count t there answer
          ∙ ap (λ b. finish_of (register_model args.repo_id sha name count hint b t)) sets
          ∙ ap finish_of run,
      record {
        meta = to_meta (as_row (default_row args sha count t.next_id));
        read = ap meta_of selected;
        revision = unfold to_meta as_row in refl;
        gate = unfold to_meta as_row in gate_lem count s;
      },
    )
