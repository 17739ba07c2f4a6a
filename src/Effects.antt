-- ===== src/Effects.antt =====
-- Python code that changes a shared state and may raise: what was written before a raise stays
-- written, so the state comes back beside the outcome. A killed process runs no handler.
pub mod Rules
pub mod Runs
pub mod Steady
pub mod Closed
use krmed_cloud_services.Base.{Text, ℕ, Option, none, some, List, [], ◌∷◌, Bool, true, false}

-- `OversizedModelError` by its message: the hint, the size, or a model that is not on the list.
pub data OversizeReason : Type 0 where
  flagged_unsupported : OversizeReason
  too_many_params : ℕ → OversizeReason
  not_in_allow_list : Text → OversizeReason

-- `TrainerError` by its message: the columns, the path, or the extensions and formats that it lists.
pub data TrainerProblem : Type 0 where
  no_text_column : List Text → TrainerProblem
  no_such_path : TrainerProblem
  no_dataset_files : TrainerProblem
  unknown_extensions : List Text → TrainerProblem
  mixed_formats : List Text → TrainerProblem

-- The exceptions of the worker, each by its class and what its message is made from.
pub data Exn : Type 0 where
  unsupported_format : Text → Text → Exn
  oversized_model : OversizeReason → Exn
  model_cache_error : Text → Text → Exn
  checkpoint_empty : Text → Exn
  checkpoint_upload : Text → Exn
  dataset_missing : Text → Exn
  dataset_download : Text → Exn
  dataset_listing : Text → Exn
  service_error : Exn
  boto_error : Exn
  hub_error : Exn
  trainer_error : TrainerProblem → Exn
  key_error : Text → Exn
  other : Text → Exn

pub data Result (A : Type 0) : Type 0 where
  ok : A → Result A
  raised : Exn → Result A
  killed : Result A

abbrev pub Exec : Type 0 → Type 0 → Type 0
Exec S A = S → Result A × S

module _ {S A : Type 0} where
  unfoldable pub pure : A → Exec S A
  pure a s = (ok a, s)

  unfoldable pub raise : Exn → Exec S A
  raise e s = (raised e, s)

module _ {S A B : Type 0} where
  abbrev pub continue : Result A × S → (A → Exec S B) → Result B × S
  continue (ok a, s) f = f a s
  continue (raised e, s) f = (raised e, s)
  continue (killed, s) f = (killed, s)

  infixl 5 ◌>>=◌ ◌>>◌
  unfoldable pub ◌>>=◌ : Exec S A → (A → Exec S B) → Exec S B
  ◌>>=◌ m f s = continue (m s) f

  unfoldable pub ◌>>◌ : Exec S A → Exec S B → Exec S B
  unfolding ◌>>=◌
  m >> k = m >>= λ _. k

  abbrev pub settle : Result A × S → (Exn → Exec S B) → (A → Exec S B) → Result B × S
  settle (ok a, s) handler after = after a s
  settle (raised e, s) handler after = handler e s
  settle (killed, s) handler after = (killed, s)

  -- `try: m` / `except Exception as e: handler e` / `else: after`
  unfoldable pub attempt : Exec S A → (Exn → Exec S B) → (A → Exec S B) → Exec S B
  attempt m handler after s = settle (m s) handler after

module _ {S A : Type 0} where
  abbrev pub conclude : Result A × S → Exec S (Unit {0}) → Result A × S
  conclude (ok a, s) cleanup = continue (cleanup s) (λ _ s'. (ok a, s'))
  conclude (raised e, s) cleanup = continue (cleanup s) (λ _ s'. (raised e, s'))
  conclude (killed, s) cleanup = (killed, s)

  -- `try: m` / `finally: cleanup`; also the exit of a `with` block
  unfoldable pub finally : Exec S A → Exec S (Unit {0}) → Exec S A
  finally m cleanup s = conclude (m s) cleanup

  -- an optional value, or an exception in its place
  unfoldable pub or_raise : Option A → Exn → Exec S A
  unfolding pure raise
  or_raise none e = raise e
  or_raise (some a) e = pure a
