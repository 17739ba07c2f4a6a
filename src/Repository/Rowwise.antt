-- ===== src/Repository/Rowwise.antt =====
-- A relation on rows that allows each update of a row gives one on tables that allows them all.
use krmed_cloud_services.Base.{
  ℕ, ◌≡◌, ap, ◌∙◌, false, ◌&&◌, List, [], ◌∷◌, ◌++◌, ◌==◌, arith, Bool-cases, inl, inr,
}
use krmed_cloud_services.Schema.{JobStatus, status_eq, is_terminal, status_eq→eq}
use krmed_cloud_services.World.{
  JobRow, Step, moved, needs_status, update_jobs, created, set_cancelled,
}
use krmed_cloud_services.Repository.Table.{TableLaw, Rowwise}

pub record RowLaw (R : JobRow → JobRow → Type 0) : Type 0 where
  pub reflexive : (r : JobRow) → R r r
  pub transitive : (x y z : JobRow) → R x y → R y z → R x z
  pub moving :
      (step : Step) (now : ℕ) (r : JobRow) → r.status ≡ needs_status step → R r (moved step now r)
  pub cancelling : (now : ℕ) (r : JobRow) → is_terminal r.status ≡ false → R r (set_cancelled now r)

module _ (R : JobRow → JobRow → Type 0) (reflexive : (r : JobRow) → R r r) where
  pub Rowwise-refl : (xs : List JobRow) → Rowwise R xs xs
  Rowwise-refl [] = tt
  Rowwise-refl (x ∷ xs) = (reflexive x, Rowwise-refl xs)

  pub Rowwise-append : (rs more : List JobRow) → Rowwise R rs (rs ++ more)
  Rowwise-append [] more = tt
  Rowwise-append (x ∷ rs) more = (reflexive x, Rowwise-append rs more)

  pub Rowwise-update_jobs :
      (id : ℕ) (expected : JobStatus) (f : JobRow → JobRow)
      → ((r : JobRow) → r.status ≡ expected → R r (f r))
      → (rs : List JobRow) → Rowwise R rs (update_jobs id expected f rs)
  unfolding update_jobs
  Rowwise-update_jobs id expected f change [] = tt
  Rowwise-update_jobs id expected f change (r ∷ rs) =
      let rest = Rowwise-update_jobs id expected f change rs in
      elim (Bool-cases (r.id == id && status_eq r.status expected)) [
        | inl hit ↦ rw hit (change r (status_eq→eq r.status expected (ground arith)), rest)
        | inr miss ↦ rw miss (reflexive r, rest)
      ]

module _ {R : JobRow → JobRow → Type 0} (law : RowLaw R) where
  Rowwise-trans : (xs ys zs : List JobRow) → Rowwise R xs ys → Rowwise R ys zs → Rowwise R xs zs
  Rowwise-trans [] ys zs h k = tt
  Rowwise-trans (x ∷ xs) [] zs h k = absurd h
  Rowwise-trans (x ∷ xs) (y ∷ ys) [] h k = absurd k
  Rowwise-trans (x ∷ xs) (y ∷ ys) (z ∷ zs) h k =
      (law.transitive x y z h.0 k.0, Rowwise-trans xs ys zs h.1 k.1)

  pub Rowwise-TableLaw : TableLaw (Rowwise R)
  Rowwise-TableLaw = record {
    reflexive = Rowwise-refl R law.reflexive;
    transitive = Rowwise-trans;
    moving = λ id now step.
        Rowwise-update_jobs R law.reflexive id (needs_status step) (moved step now)
          (law.moving step now);
    cancelling = λ id now expected active.
        Rowwise-update_jobs R law.reflexive id expected (set_cancelled now)
          (λ r e. law.cancelling now r (ap is_terminal e ∙ active));
    inserting = λ r rs new. Rowwise-append R law.reflexive rs (created r ∷ []);
  }
