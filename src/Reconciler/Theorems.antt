-- ===== src/Reconciler/Theorems.antt =====
-- The promises of a reconciliation, with the run that keeps them.
use krmed_cloud_services.Base.{
  Text, ℕ, ◌≡◌, refl, ap, ◌∙◌, true, false, List, [], ◌∷◌, map, contains, count, text_eq,
  text_eq_iff, keep_if, Bool-cases, inl, inr, arith,
}
use krmed_cloud_services.Effects.{ok}
use krmed_cloud_services.Schema.{running, status_eq}
use krmed_cloud_services.Schema.Uuid.{uuid_str}
use krmed_cloud_services.World.{World, JobRow, update_jobs}
use krmed_cloud_services.World.Calm.{IsCalm}
use krmed_cloud_services.Queue.{push_back}
use krmed_cloud_services.Status.{put_status}
use krmed_cloud_services.Repository.{update, set_queued, ids, is_orphan}
use krmed_cloud_services.Reconciler.{ReconcileStats, reconcile}
use krmed_cloud_services.Reconciler.Calm.{
  stale_ids, orphan_ids, live, recovered_one, recovered, requeued, reconciled, reconcile-Runs,
}
use krmed_cloud_services.Reconciler.Recovery.{
  IsWaiting, has_id, recovered-waits, recovered-live, requeued-IsWaiting, requeued-live,
  requeued-recovers,
}

abbrev orphans : ℕ → ℕ → List JobRow → List ℕ
orphans grace now rows = ids (keep_if (is_orphan grace now) rows)

-- Putting an abandoned job back touches no orphan.
not_running :
    (grace now : ℕ) (r : JobRow) → is_orphan grace now r ≡ true → status_eq r.status running ≡ false
unfolding is_orphan status_eq
not_running grace now r h = ground arith

update_jobs-orphans :
    (grace now id x : ℕ) (f : JobRow → JobRow) (rows : List JobRow)
    → has_id id (orphans grace now rows) ≡ true
    → has_id id (orphans grace now (update_jobs x running f rows)) ≡ true
unfolding update_jobs
update_jobs-orphans grace now id x f [] h = cc
update_jobs-orphans grace now id x f (r ∷ rows) h =
    ground (arith, not_running grace now r, update_jobs-orphans grace now id x f rows)

pub recovered-orphans :
    (grace id : ℕ) (l : List ℕ) (w : World)
    → has_id id (orphan_ids grace w) ≡ true
    → has_id id (orphan_ids grace (recovered l w)) ≡ true
unfolding recovered orphan_ids recovered_one
recovered-orphans grace id [] w h = h
recovered-orphans grace id (x ∷ l) w h = recovered-orphans grace id l (recovered_one x w) (
    unfold push_back put_status update in
    update_jobs-orphans grace w.now id x (set_queued w.now) w.jobs h)

-- A reconciliation from a world without faults: it returns, in a world of which `Q` holds.
abbrev pub Reconciles : ℕ → ℕ → World → (ReconcileStats → World → Type 0) → Type 0
Reconciles age grace w Q =
    (stats : ReconcileStats) × (v : World) × (reconcile age grace w ≡ (ok stats, v)) × Q stats v

module _ (age grace : ℕ) (w : World) (calm : IsCalm w) where
  -- Without faults a reconciliation returns, and every job that was running with a stale heartbeat
  -- is then on the queue and not in flight.
  pub reconcile-stale :
      (id : ℕ)
      → has_id id (stale_ids age w) ≡ true
      → Reconciles age grace w (λ _ v. IsWaiting (uuid_str id) v)
  reconcile-stale id h = (
    _,
    reconciled age grace w,
    (reconcile-Runs age grace w calm).returns,
    unfold reconciled in
        requeued-IsWaiting _ (uuid_str id) _ _ (recovered-waits id (stale_ids age w) w h),
  )

  -- Without faults a reconciliation returns, and every queued job that was older than the grace
  -- period is then on the queue or in flight.
  pub reconcile-orphan :
      (id : ℕ)
      → has_id id (orphan_ids grace w) ≡ true
      → Reconciles age grace w (λ _ v. contains (uuid_str id) (live v) ≡ true)
  reconcile-orphan id h = (
    _,
    reconciled age grace w,
    (reconcile-Runs age grace w calm).returns,
    unfold reconciled in
        requeued-recovers _ id _ (recovered (stale_ids age w) w) (λ t c. c)
          (recovered-orphans grace id (stale_ids age w) w h),
  )

  -- Without faults a reconciliation returns, and every id that was on the queue or in flight still
  -- is on one of them.
  pub reconcile-live :
      (t : Text)
      → contains t (live w) ≡ true
      → Reconciles age grace w (λ _ v. contains t (live v) ≡ true)
  reconcile-live t h = (
    _,
    reconciled age grace w,
    (reconcile-Runs age grace w calm).returns,
    unfold reconciled in requeued-live _ t _ _ (recovered-live t (stale_ids age w) w h),
  )

-- Two texts of which only one is in a list differ.
pub other_id :
    (known : List Text) (s t : Text)
    → contains s known ≡ false
    → contains t known ≡ true
    → text_eq s t ≡ false
other_id known s t out inside = elim (Bool-cases (text_eq s t)) [
  | inl same ↦ cc (ap (λ x. contains x known) ((text_eq_iff s t).0 same))
  | inr other ↦ other
]

-- An id that is not among those put back stands on the queue as often as before.
one_more :
    (t : Text) (x : ℕ) (w : World)
    → text_eq (uuid_str x) t ≡ false
    → count t (push_back (uuid_str x) w).queue ≡ count t w.queue
unfolding push_back count
one_more t x w h = rw h

recovered_one-count :
    (t : Text) (x : ℕ) (w : World)
    → text_eq (uuid_str x) t ≡ false
    → count t (recovered_one x w).queue ≡ count t w.queue
unfolding recovered_one put_status update
recovered_one-count t x w h = one_more t x _ h

recovered-count :
    (t : Text) (l : List ℕ) (w : World)
    → contains t (map uuid_str l) ≡ false
    → count t (recovered l w).queue ≡ count t w.queue
unfolding recovered contains
recovered-count t [] w h = refl
recovered-count t (x ∷ l) w h =
    recovered-count t l (recovered_one x w) (ground arith)
    ∙ recovered_one-count t x w (ground arith)

requeued-count :
    (known : List Text) (t : Text) (l : List ℕ) (w : World)
    → contains t known ≡ true
    → count t (requeued known l w).queue ≡ count t w.queue
unfolding requeued
requeued-count known t [] w h = refl
requeued-count known t (x ∷ l) w h = elim (Bool-cases (contains (uuid_str x) known)) [
  | inl there ↦ rw (there, requeued) (requeued-count known t l w h)
  | inr gone ↦
      rw (gone, requeued)
        (requeued-count known t l (push_back (uuid_str x) w) h
          ∙ one_more t x w (other_id known (uuid_str x) t gone h))
]

-- Without faults a reconciliation returns, and an id that was on the queue or in flight, and is not
-- that of a job with a stale heartbeat, stands on the queue exactly as often as before.
pub reconcile-count :
    (age grace : ℕ) (w : World) (t : Text)
    → IsCalm w
    → contains t (live w) ≡ true
    → contains t (map uuid_str (stale_ids age w)) ≡ false
    → Reconciles age grace w (λ _ v. count t v.queue ≡ count t w.queue)
reconcile-count age grace w t calm h fresh = (
  _,
  reconciled age grace w,
  (reconcile-Runs age grace w calm).returns,
  unfold reconciled in
      requeued-count _ t _ _ (recovered-live t (stale_ids age w) w h)
      ∙ recovered-count t (stale_ids age w) w fresh,
)
