-- ===== src/Repository/Frozen.antt =====
-- How the rows of the table of jobs may change, whoever acts and whatever fails: no row goes away, a
-- row keeps what it was created with, and a row in a terminal status does not change at all.
use krmed_cloud_services.Base.{◌≡◌, refl, ap, ◌∙◌, true, false, ℕ, Text, List}
use krmed_cloud_services.Effects.Rules.{Preorder}
use krmed_cloud_services.Schema.{Json, is_terminal}
use krmed_cloud_services.World.{
  World, JobRow, Step, starts, lives, gives_back, completes, fails, moved, needs_status,
  set_cancelled,
}
use krmed_cloud_services.Repository.Table.{OnJobs, OnJobs-Preorder, Rowwise, TableLaw}
use krmed_cloud_services.Repository.Rowwise.{RowLaw, Rowwise-TableLaw}

-- The fields that a row is created with.
abbrev pub origin : JobRow → ℕ × Text × Text × List (Text × Json) × ℕ
origin r = (r.id, r.base_model, r.dataset_path, r.hyperparameters, r.created_at)

pub record RowEvolves (x y : JobRow) : Type 0 where
  pub same_origin : origin y ≡ origin x
  pub frozen : is_terminal x.status ≡ true → y ≡ x

abbrev pub Evolves : World → World → Type 0
Evolves = OnJobs (Rowwise RowEvolves)

RowEvolves-trans : (x y z : JobRow) → RowEvolves x y → RowEvolves y z → RowEvolves x z
RowEvolves-trans x y z h k = record {
  same_origin = k.same_origin ∙ h.same_origin;
  frozen = λ t. k.frozen (ap (λ (r : JobRow). is_terminal r.status) (h.frozen t) ∙ t) ∙ h.frozen t;
}

needs_status_active : (step : Step) → is_terminal (needs_status step) ≡ false
unfolding is_terminal
needs_status_active starts = refl
needs_status_active lives = refl
needs_status_active gives_back = refl
needs_status_active (completes path) = refl
needs_status_active (fails message) = refl

moved-origin : (step : Step) (now : ℕ) (r : JobRow) → origin (moved step now r) ≡ origin r
moved-origin starts now r = refl
moved-origin lives now r = refl
moved-origin gives_back now r = refl
moved-origin (completes path) now r = refl
moved-origin (fails message) now r = refl

active_row : (x y : JobRow) → origin y ≡ origin x → is_terminal x.status ≡ false → RowEvolves x y
active_row x y same active = record { same_origin = same; frozen = λ t. cc (active, t) }

RowEvolves-RowLaw : RowLaw RowEvolves
RowEvolves-RowLaw = record {
  reflexive = λ r. record { same_origin = refl; frozen = λ t. refl };
  transitive = RowEvolves-trans;
  moving = λ step now r e.
      active_row r _ (moved-origin step now r) (ap is_terminal e ∙ needs_status_active step);
  cancelling = λ now r active. active_row r (set_cancelled now r) refl active;
}

pub Evolves-TableLaw : TableLaw (Rowwise RowEvolves)
Evolves-TableLaw = Rowwise-TableLaw RowEvolves-RowLaw

pub Evolves-order : Preorder Evolves
Evolves-order = OnJobs-Preorder Evolves-TableLaw
