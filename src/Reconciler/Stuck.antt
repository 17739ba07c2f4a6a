-- ===== src/Reconciler/Stuck.antt =====
-- A job in flight that no worker has started: a worker died between the claim of its id and
-- `mark_running`. What reconciliations make of it, however many and however late.
use krmed_cloud_services.Base.{
  Text, ℕ, ◌+◌, ◌≡◌, refl, ap, sym, ◌∙◌, Bool, true, false, ◌==◌, some, List, [], ◌∷◌, ◌++◌, map,
  contains, contains-append, contains-remove_all_ne, text_eq, text_eq_iff, keep_if, Bool-cases, inl,
  inr, arith,
}
use krmed_cloud_services.Effects.{ok, pure, ◌>>◌}
use krmed_cloud_services.Effects.Runs.{Runs, Runs-pure, Runs-then}
use krmed_cloud_services.Schema.{queued, running, status_eq}
use krmed_cloud_services.Schema.Uuid.{uuid_str}
use krmed_cloud_services.World.{World, M, JobRow, update_jobs}
use krmed_cloud_services.World.Calm.{IsCalm}
use krmed_cloud_services.Queue.{push_back, drop_processing}
use krmed_cloud_services.Status.{put_status}
use krmed_cloud_services.Repository.{find_row, update, set_queued, ids, is_stale}
use krmed_cloud_services.Calls.{push_back-IsCalm}
use krmed_cloud_services.Reconciler.{reconcile}
use krmed_cloud_services.Reconciler.Theorems.{other_id}
use krmed_cloud_services.Reconciler.Calm.{
  stale_ids, orphan_ids, live, recovered_one, recovered, recovered-IsCalm, requeued, reconciled,
  reconcile-Runs,
}

abbrev pub is_running : JobRow → Bool
is_running r = status_eq r.status running

-- The texts of the ids of the running jobs.
abbrev pub running_texts : List JobRow → List Text
running_texts rows = map uuid_str (ids (keep_if is_running rows))

-- The job is queued, its id is in flight and not on the queue, and no running job has its id.
pub record IsStuck (id : ℕ) (row : JobRow) (w : World) : Type 0 where
  pub found : find_row id w.jobs ≡ some row
  pub waits : row.status ≡ queued
  pub not_running : contains (uuid_str id) (running_texts w.jobs) ≡ false
  pub in_flight : contains (uuid_str id) w.processing ≡ true
  pub not_queued : contains (uuid_str id) w.queue ≡ false

-- Fewer jobs run when some are reset.
reset-running_texts :
    (t : Text) (x now : ℕ) (rows : List JobRow)
    → contains t (running_texts rows) ≡ false
    → contains t (running_texts (update_jobs x running (set_queued now) rows)) ≡ false
unfolding update_jobs contains status_eq
reset-running_texts t x now [] h = refl
reset-running_texts t x now (r ∷ rows) h = ground (arith, reset-running_texts t x now rows)

stale-running_texts :
    (t : Text) (age now : ℕ) (rows : List JobRow)
    → contains t (running_texts rows) ≡ false
    → contains t (map uuid_str (ids (keep_if (is_stale age now) rows))) ≡ false
unfolding contains is_stale
stale-running_texts t age now [] h = refl
stale-running_texts t age now (r ∷ rows) h = ground (arith, stale-running_texts t age now rows)

-- A reset changes no row that is queued.
reset-find_row :
    (id x now : ℕ) (rows : List JobRow) (row : JobRow)
    → find_row id rows ≡ some row
    → row.status ≡ queued
    → find_row id (update_jobs x running (set_queued now) rows) ≡ some row
unfolding update_jobs status_eq
reset-find_row id x now [] row h e = cc
reset-find_row id x now (r ∷ rows) row h e = elim (Bool-cases (r.id == id)) [
  | inl hit ↦
      let same : r ≡ row = ground arith in
      let idle : status_eq r.status running ≡ false =
        ap (λ (y : JobRow). status_eq y.status running) same ∙ ap (λ s. status_eq s running) e in
      ground (arith, same, idle)
  | inr miss ↦ ground (arith, reset-find_row id x now rows row (ground arith) e)
]

module _ (id : ℕ) (row : JobRow) where
  -- Pushing the id of another job back.
  push_back-IsStuck :
      (x : ℕ) (w : World)
      → text_eq (uuid_str x) (uuid_str id) ≡ false
      → IsStuck id row w
      → IsStuck id row (push_back (uuid_str x) w)
  unfolding push_back drop_processing
  push_back-IsStuck x w other h = record {
    found = h.found;
    waits = h.waits;
    not_running = h.not_running;
    in_flight =
        contains-remove_all_ne (uuid_str id) (uuid_str x) w.processing
          (λ e. cc (other, (text_eq_iff (uuid_str x) (uuid_str id)).1 (sym e)))
        ∙ h.in_flight;
    not_queued = unfold contains in rw other h.not_queued;
  }

  recovered_one-IsStuck :
      (x : ℕ) (w : World)
      → text_eq (uuid_str x) (uuid_str id) ≡ false
      → IsStuck id row w
      → IsStuck id row (recovered_one x w)
  unfolding recovered_one put_status update
  recovered_one-IsStuck x w other h = push_back-IsStuck x _ other (record {
    found = reset-find_row id x w.now w.jobs row h.found h.waits;
    waits = h.waits;
    not_running = reset-running_texts (uuid_str id) x w.now w.jobs h.not_running;
    in_flight = h.in_flight;
    not_queued = h.not_queued;
  })

  recovered-IsStuck :
      (l : List ℕ) (w : World)
      → contains (uuid_str id) (map uuid_str l) ≡ false
      → IsStuck id row w
      → IsStuck id row (recovered l w)
  unfolding recovered contains
  recovered-IsStuck [] w out h = h
  recovered-IsStuck (x ∷ l) w out h =
      recovered-IsStuck l (recovered_one x w) (ground arith)
        (recovered_one-IsStuck x w (ground arith) h)

  requeued-IsStuck :
      (known : List Text) (l : List ℕ) (w : World)
      → contains (uuid_str id) known ≡ true
      → IsStuck id row w
      → IsStuck id row (requeued known l w)
  unfolding requeued
  requeued-IsStuck known [] w k h = h
  requeued-IsStuck known (x ∷ l) w k h = elim (Bool-cases (contains (uuid_str x) known)) [
    | inl there ↦ rw there (requeued-IsStuck known l w k h)
    | inr gone ↦ rw gone (
        requeued-IsStuck known l (push_back (uuid_str x) w) k
          (push_back-IsStuck x w (other_id known (uuid_str x) (uuid_str id) gone k) h))
  ]

  -- A reconciliation.
  reconciled-IsStuck :
      (age grace : ℕ) (w : World) → IsStuck id row w → IsStuck id row (reconciled age grace w)
  unfolding reconciled stale_ids live
  reconciled-IsStuck age grace w h =
      let v = recovered (stale_ids age w) w in
      let still : IsStuck id row v =
        recovered-IsStuck (stale_ids age w) w
          (stale-running_texts (uuid_str id) age w.now w.jobs h.not_running) h in
      requeued-IsStuck (v.queue ++ v.processing) (orphan_ids grace v) v
        (contains-append (uuid_str id) v.queue v.processing ∙ rw still.not_queued still.in_flight)
        still

-- `n` seconds pass.
unfoldable pub wait : ℕ → M (Unit {0})
wait n w = (ok tt, record w { now = w.now + n })

-- Reconciliations, each some seconds after the one before.
unfoldable pub rounds : ℕ → ℕ → List ℕ → M (Unit {0})
rounds age grace [] = pure tt
rounds age grace (n ∷ ns) = do wait n; reconcile age grace; rounds age grace ns

requeued-IsCalm :
    (known : List Text) (l : List ℕ) (w : World) → IsCalm w → IsCalm (requeued known l w)
unfolding requeued
requeued-IsCalm known [] w h = h
requeued-IsCalm known (x ∷ l) w h = elim (Bool-cases (contains (uuid_str x) known)) [
  | inl there ↦ rw (there, requeued) (requeued-IsCalm known l w h)
  | inr gone ↦
      rw (gone, requeued)
        (requeued-IsCalm known l (push_back (uuid_str x) w) (push_back-IsCalm w h (uuid_str x)))
]

pub reconciled-IsCalm : (age grace : ℕ) (w : World) → IsCalm w → IsCalm (reconciled age grace w)
unfolding reconciled
reconciled-IsCalm age grace w h = requeued-IsCalm _ _ _ (recovered-IsCalm (stale_ids age w) w h)

wait-IsStuck :
    (id : ℕ) (row : JobRow) (n : ℕ) (w : World)
    → IsStuck id row w
    → IsStuck id row (record w { now = w.now + n })
wait-IsStuck id row n w h = record {
  found = h.found;
  waits = h.waits;
  not_running = h.not_running;
  in_flight = h.in_flight;
  not_queued = h.not_queued;
}

-- Without faults, all of them return, and the job is as stuck as before.
pub rounds-IsStuck :
    (age grace : ℕ) (id : ℕ) (row : JobRow) (ns : List ℕ) (w : World)
    → IsCalm w
    → IsStuck id row w
    → (u : World) × Runs (rounds age grace ns) w tt u × IsStuck id row u
unfolding rounds wait
rounds-IsStuck age grace id row [] w calm h = (w, Runs-pure tt w, h)
rounds-IsStuck age grace id row (n ∷ ns) w calm h =
    let v = record w { now = w.now + n } in
    let (u, ran, still) =
      rounds-IsStuck age grace id row ns (reconciled age grace v)
        (reconciled-IsCalm age grace v calm)
        (reconciled-IsStuck id row age grace v (wait-IsStuck id row n w h)) in
    (
      u,
      Runs-then (record { returns = refl }) (Runs-then (reconcile-Runs age grace v calm) ran),
      still,
    )
