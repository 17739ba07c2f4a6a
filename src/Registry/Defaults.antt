-- ===== src/Registry/Defaults.antt =====
-- The default revision of a repository after a registration.
use krmed_cloud_services.Base.{
  Text, ℕ, ◌+◌, ◌≡◌, refl, Bool, true, false, not, ◌&&◌, Option, none, some, List, [], ◌∷◌, ◌++◌,
  text_eq, text_eq_refl, ◌==◌, find, All, arith,
}
use krmed_cloud_services.Registry.{
  ModelEntry, ModelTable, registered, same_model, clear_defaults, make_default, new_model,
  insert_model, register_model,
}

-- A row of the repository is the default exactly if it has the id.
abbrev IsOnlyDefault : Text → ℕ → ModelEntry → Type 0
IsOnlyDefault repo id r = (text_eq r.hf_repo_id repo && r.is_default && not (r.id == id)) ≡ false

cleared :
    (repo : Text) (id : ℕ) (rows : List ModelEntry)
    → All (IsOnlyDefault repo id) (make_default id (clear_defaults repo id rows))
unfolding clear_defaults make_default
cleared repo id [] = tt
cleared repo id (r ∷ rows) = (ground arith, cleared repo id rows)

abbrev is_default_of : Text → ModelEntry → Bool
is_default_of repo r = text_eq r.hf_repo_id repo && r.is_default

-- No row has the id that the sequence gives next.
abbrev pub IsFresh : ModelTable → Type 0
IsFresh t = All (λ r. (r.id == t.next_id) ≡ false) t.rows

found_last :
    (repo : Text) (id : ℕ) (n : ModelEntry) (rows : List ModelEntry)
    → n.id ≡ id
    → n.hf_repo_id ≡ repo
    → All (λ r. (r.id == id) ≡ false) rows
    → find (is_default_of repo) (make_default id (clear_defaults repo id (rows ++ n ∷ [])))
      ≡ some (record n { is_default = true })
unfolding clear_defaults make_default
found_last repo id n [] e f h = ground (arith, text_eq_refl repo)
found_last repo id n (r ∷ rows) e f h = ground (arith, found_last repo id n rows e f h.1, h.0)

-- If no row has the next id of the sequence: registering a revision that is not there yet as the
-- default gives it that id; it is then the
-- default of its repository, and no other row of the repository is one.
pub register_model-default :
    (repo revision name : Text) (count : Option ℕ) (hint : Option Text) (t : ModelTable)
    → IsFresh t
    → find (same_model repo revision) t.rows ≡ none
    → (u : ModelTable) × (register_model repo revision name count hint true t
        ≡ (registered t.next_id, u))
      × (find (is_default_of repo) u.rows
          ≡ some (record (new_model t.next_id repo revision name count hint) { is_default = true }))
      × All (IsOnlyDefault repo t.next_id) u.rows
unfolding register_model insert_model
register_model-default repo revision name count hint t fresh new =
    let n = new_model t.next_id repo revision name count hint in
    (
      record {
        rows = make_default t.next_id (clear_defaults repo t.next_id (t.rows ++ n ∷ []));
        next_id = t.next_id + 1;
      },
      rw new refl,
      found_last repo t.next_id n t.rows refl refl fresh,
      cleared repo t.next_id (t.rows ++ n ∷ []),
    )
