-- ===== src/Repository/Readable.antt =====
-- A row whose hyperparameters are complete can be read as a job, and stays so.
use krmed_cloud_services.Base.{
  Text, ℕ, ◌≡◌, refl, ap, ◌∙◌, Bool, true, false, ◌&&◌, ◌==◌, Option, none, some, List, [], ◌∷◌,
  codes, arith, Bool-cases, inl, inr, subst,
}
use krmed_cloud_services.Effects.{ok, pure, or_raise, ◌>>=◌, continue}
use krmed_cloud_services.Schema.{Job, Json}
use krmed_cloud_services.Schema.Uuid.{uuid_of}
use krmed_cloud_services.World.{World, JobRow, read}
use krmed_cloud_services.World.Calm.{IsCalm, service_calm}
use krmed_cloud_services.Repository.{find_row, get_job, to_job, row_to_job, lookup_json}
use krmed_cloud_services.Repository.Frozen.{RowEvolves}
use krmed_cloud_services.Repository.Table.{Rowwise}

abbrev is_there : Option Json → Bool
is_there none = false
is_there (some v) = true

-- The five keys that `_row_to_job` reads are there.
abbrev pub has_fields : List (Text × Json) → Bool
has_fields hp =
    is_there (lookup_json (codes "learning_rate") hp)
    && (is_there (lookup_json (codes "epochs") hp)
        && (is_there (lookup_json (codes "batch_size") hp)
            && (is_there (lookup_json (codes "lora_rank") hp)
                && is_there (lookup_json (codes "lora_alpha") hp))))

-- A text of the id of a job whose row can be read.
pub record Readable (rows : List JobRow) (t : Text) : Type 0 where
  pub id : ℕ
  pub row : JobRow
  pub parsed : uuid_of t ≡ some id
  pub found : find_row id rows ≡ some row
  pub complete : has_fields row.hyperparameters ≡ true

-- The job of a row whose five values are given.
abbrev job_with : JobRow → Json → Json → Json → Json → Json → Job
job_with row a b c d e = record {
  id = row.id;
  status = row.status;
  base_model = row.base_model;
  dataset_path = row.dataset_path;
  hyperparameters = record {
    learning_rate = a;
    epochs = b;
    batch_size = c;
    lora_rank = d;
    lora_alpha = e;
  };
  checkpoint_path = row.checkpoint_path;
  error_message = row.error_message;
  created_at = row.created_at;
  updated_at = row.updated_at;
}

pub row_to_job_returns :
    (row : JobRow) (w : World)
    → has_fields row.hyperparameters ≡ true
    → (job : Job) × (row_to_job row w ≡ (ok job, w))
unfolding row_to_job ◌>>=◌ or_raise pure
row_to_job_returns row w = go _ _ _ _ _ refl refl refl refl refl
  where
    go :
        (a b c d e : Option Json)
        → lookup_json (codes "learning_rate") row.hyperparameters ≡ a
        → lookup_json (codes "epochs") row.hyperparameters ≡ b
        → lookup_json (codes "batch_size") row.hyperparameters ≡ c
        → lookup_json (codes "lora_rank") row.hyperparameters ≡ d
        → lookup_json (codes "lora_alpha") row.hyperparameters ≡ e
        → (is_there a && (is_there b && (is_there c && (is_there d && is_there e)))) ≡ true
        → (job : Job) × (row_to_job row w ≡ (ok job, w))
    go (some a) (some b) (some c) (some d) (some e) ea eb ec ed ee h =
        (job_with row a b c d e, rw (ea, eb, ec, ed, ee) refl)
    go none b c d e ea eb ec ed ee h = ground arith
    go (some a) none c d e ea eb ec ed ee h = ground arith
    go (some a) (some b) none d e ea eb ec ed ee h = ground arith
    go (some a) (some b) (some c) none e ea eb ec ed ee h = ground arith
    go (some a) (some b) (some c) (some d) none ea eb ec ed ee h = ground arith

pub get_job_returns :
    (w : World) (t : Text) (r : Readable w.jobs t)
    → IsCalm w
    → (job : Job) × (get_job r.id w ≡ (ok (some job), w))
unfolding get_job to_job ◌>>=◌ pure
get_job_returns w t r calm =
    let (job, reads) = row_to_job_returns r.row w r.complete in
    (
      job,
      ap (λ x. continue x to_job) (service_calm (read (λ u. find_row r.id u.jobs)) w calm)
          ∙ ap (λ x. to_job x w) r.found
          ∙ ap (λ x. continue x (λ j. pure (some j))) reads,
    )

-- The row of an id, further on.
pub find_row-Evolves :
    (id : ℕ) (xs ys : List JobRow) {x : JobRow}
    → Rowwise RowEvolves xs ys
    → find_row id xs ≡ some x
    → (y : JobRow) × (find_row id ys ≡ some y) × RowEvolves x y
find_row-Evolves id [] ys h e = cc
find_row-Evolves id (a ∷ xs) [] h e = absurd h
find_row-Evolves id (a ∷ xs) (b ∷ ys) {x} (h, k) e =
    let same = ap (λ (o : ℕ × Text × Text × List (Text × Json) × ℕ). o.0) h.same_origin in
    elim (Bool-cases (a.id == id)) [
      | inl hit ↦
          let e' : a ≡ x = ground arith in
          (b, ground (arith, same), subst (λ r. RowEvolves r b) e' h)
      | inr miss ↦
          let (y, found, evolves) = find_row-Evolves id xs ys {x = x} k (ground arith) in
          (y, ground (arith, same, found), evolves)
    ]

pub Readable-Evolves :
    (t : Text) (xs ys : List JobRow) → Rowwise RowEvolves xs ys → Readable xs t → Readable ys t
Readable-Evolves t xs ys h r =
    let (y, found, evolves) = find_row-Evolves r.id xs ys h r.found in
    record {
      id = r.id;
      row = y;
      parsed = r.parsed;
      found = found;
      complete =
          ap (λ (o : ℕ × Text × Text × List (Text × Json) × ℕ). has_fields o.3) evolves.same_origin
          ∙ r.complete;
    }
