-- ===== src/Reconciler/Backlog.antt =====
-- What stands on the queue after a reconciliation, and on what jobs.
use krmed_cloud_services.Base.{
  contains-remove_all, Text, ℕ, ◌≡◌, Bool, true, false, ◌&&◌, ◌==◌, List, [], ◌∷◌, ◌++◌, contains,
  contains-append, keep_if, Bool-cases, inl, inr, arith,
}
use krmed_cloud_services.Base.{All}
use krmed_cloud_services.Schema.{running, status_eq}
use krmed_cloud_services.Schema.Uuid.{uuid_str}
use krmed_cloud_services.World.{World, JobRow, update_jobs}
use krmed_cloud_services.Queue.{push_back, drop_processing}
use krmed_cloud_services.Status.{put_status}
use krmed_cloud_services.Repository.{update, set_queued, ids, is_stale, is_orphan}
use krmed_cloud_services.Reconciler.Calm.{
  stale_ids, orphan_ids, live, recovered_one, recovered, requeued, reconciled,
}
use krmed_cloud_services.Reconciler.Recovery.{
  has_id, recovered-waits, requeued-IsWaiting, requeued-recovers,
}
use krmed_cloud_services.Reconciler.Theorems.{recovered-orphans}

kept_ids :
    (Q : ℕ → Type 0) (p : JobRow → Bool) (rows : List JobRow)
    → All (λ (r : JobRow). Q r.id) rows
    → All Q (ids (keep_if p rows))
kept_ids Q p [] h = tt
kept_ids Q p (r ∷ rows) (h, hs) = elim (Bool-cases (p r)) [
  | inl kept ↦ rw kept (h, kept_ids Q p rows hs)
  | inr dropped ↦ rw dropped (kept_ids Q p rows hs)
]

module _ (P : Text → Type 0) where
  -- A condition on the texts of the ids of the rows.
  abbrev OnIds : World → Type 0
  OnIds w = All (λ (r : JobRow). P (uuid_str r.id)) w.jobs

  reset-OnIds :
      (x now : ℕ) (rows : List JobRow)
      → All (λ (r : JobRow). P (uuid_str r.id)) rows
      → All (λ (r : JobRow). P (uuid_str r.id)) (update_jobs x running (set_queued now) rows)
  unfolding update_jobs
  reset-OnIds x now [] h = tt
  reset-OnIds x now (r ∷ rows) (h, hs) =
      elim (Bool-cases (r.id == x && status_eq r.status running)) [
        | inl hit ↦ rw hit (h, reset-OnIds x now rows hs)
        | inr miss ↦ rw miss (h, reset-OnIds x now rows hs)
      ]

  recovered-OnIds : (l : List ℕ) (w : World) → OnIds w → OnIds (recovered l w)
  unfolding recovered recovered_one push_back put_status update
  recovered-OnIds [] w h = h
  recovered-OnIds (x ∷ l) w h = recovered-OnIds l (recovered_one x w) (reset-OnIds x w.now w.jobs h)

  recovered-queue :
      (l : List ℕ) (w : World)
      → All P w.queue
      → All (λ x. P (uuid_str x)) l
      → All P (recovered l w).queue
  unfolding recovered recovered_one push_back put_status update
  recovered-queue [] w h k = h
  recovered-queue (x ∷ l) w h (k, ks) = recovered-queue l (recovered_one x w) (k, h) ks

  requeued-queue :
      (known : List Text) (l : List ℕ) (w : World)
      → All P w.queue
      → All (λ x. P (uuid_str x)) l
      → All P (requeued known l w).queue
  unfolding requeued
  requeued-queue known [] w h k = h
  requeued-queue known (x ∷ l) w h (k, ks) = elim (Bool-cases (contains (uuid_str x) known)) [
    | inl there ↦ rw (there, requeued) (requeued-queue known l w h ks)
    | inr gone ↦
        rw (gone, requeued)
          (requeued-queue known l (push_back (uuid_str x) w) (unfold push_back in (k, h)) ks)
  ]

  -- What holds of the texts on the queue, and of those of the ids of all jobs, holds of the texts on
  -- the queue after a reconciliation.
  pub reconciled-queue :
      (age grace : ℕ) (w : World) → All P w.queue → OnIds w → All P (reconciled age grace w).queue
  unfolding reconciled stale_ids orphan_ids
  reconciled-queue age grace w h k =
      let v = recovered (stale_ids age w) w in
      requeued-queue (live v) (orphan_ids grace v) v
        (recovered-queue (stale_ids age w) w h
          (kept_ids (λ x. P (uuid_str x)) (is_stale age w.now) w.jobs k))
        (kept_ids (λ x. P (uuid_str x)) (is_orphan grace v.now) v.jobs
          (recovered-OnIds (stale_ids age w) w k))

-- Nothing comes off the queue, and nothing comes into flight.
module _ (t : Text) where
  pub record Grows (w v : World) : Type 0 where
    pub queue : contains t w.queue ≡ true → contains t v.queue ≡ true
    pub flight : contains t w.processing ≡ false → contains t v.processing ≡ false

  push_back-Grows : (s : Text) (w : World) → Grows w (push_back s w)
  unfolding push_back drop_processing
  push_back-Grows s w = record {
    queue = λ h. unfold contains in ground arith;
    flight = contains-remove_all t s w.processing;
  }

  Grows-trans : (u v w : World) → Grows u v → Grows v w → Grows u w
  Grows-trans u v w h k = record {
    queue = λ a. k.queue (h.queue a);
    flight = λ a. k.flight (h.flight a);
  }

  recovered-Grows : (l : List ℕ) (w : World) → Grows w (recovered l w)
  unfolding recovered recovered_one put_status update
  recovered-Grows [] w = record { queue = λ h. h; flight = λ h. h }
  recovered-Grows (x ∷ l) w =
      let one = push_back-Grows (uuid_str x) _ in
      Grows-trans w (recovered_one x w) _ (record { queue = one.queue; flight = one.flight })
        (recovered-Grows l (recovered_one x w))

  requeued-Grows : (known : List Text) (l : List ℕ) (w : World) → Grows w (requeued known l w)
  unfolding requeued
  requeued-Grows known [] w = record { queue = λ h. h; flight = λ h. h }
  requeued-Grows known (x ∷ l) w = elim (Bool-cases (contains (uuid_str x) known)) [
    | inl there ↦ rw (there, requeued) (requeued-Grows known l w)
    | inr gone ↦
        rw (gone, requeued)
          (Grows-trans w (push_back (uuid_str x) w) _ (push_back-Grows (uuid_str x) w)
            (requeued-Grows known l (push_back (uuid_str x) w)))
  ]

  pub reconciled-Grows : (age grace : ℕ) (w : World) → Grows w (reconciled age grace w)
  unfolding reconciled
  reconciled-Grows age grace w =
      Grows-trans w (recovered (stale_ids age w) w) _ (recovered-Grows (stale_ids age w) w)
        (requeued-Grows _ _ (recovered (stale_ids age w) w))

-- Where the ids of a reconciliation are: a stale job's is on the queue, and so is an orphan's that was
-- not in flight.
pub stale-queued :
    (age grace id : ℕ) (w : World)
    → has_id id (stale_ids age w) ≡ true
    → contains (uuid_str id) (reconciled age grace w).queue ≡ true
unfolding reconciled
stale-queued age grace id w h =
    (requeued-IsWaiting _ (uuid_str id) _ _ (recovered-waits id (stale_ids age w) w h)).in_queue

pub orphan-queued :
    (age grace id : ℕ) (w : World)
    → has_id id (orphan_ids grace w) ≡ true
    → contains (uuid_str id) w.processing ≡ false
    → contains (uuid_str id) (reconciled age grace w).queue ≡ true
orphan-queued age grace id w h out =
    let v = reconciled age grace w in
    let there : contains (uuid_str id) (v.queue ++ v.processing) ≡ true =
      unfold reconciled live in
      requeued-recovers _ id _ (recovered (stale_ids age w) w) (λ t c. c)
        (recovered-orphans grace id (stale_ids age w) w h) in
    ground (
      arith,
      contains-append (uuid_str id) v.queue v.processing,
      (reconciled-Grows (uuid_str id) age grace w).flight out,
      there,
    )
