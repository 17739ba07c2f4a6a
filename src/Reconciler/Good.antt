-- ===== src/Reconciler/Good.antt =====
-- What holds of every call that `reconcile` makes, and is kept by each way to build code, holds of
-- `reconcile`.
use krmed_cloud_services.Base.{Text, ℕ, List, [], ◌∷◌, ◌++◌, contains}
use krmed_cloud_services.Effects.Closed.{Closed, good_then, good_if}
use krmed_cloud_services.Schema.Uuid.{uuid_str}
use krmed_cloud_services.World.{World, M, gives_back, service, write}
use krmed_cloud_services.Queue.{requeue, push_back, queued_ids, in_flight_ids}
use krmed_cloud_services.Repository.{find_stale_running, find_orphan_queued, reset_to_queued}
use krmed_cloud_services.Processor.Good.{CallsGood, publish_good}
use krmed_cloud_services.Reconciler.{
  ReconcileStats, recover_each, recover_abandoned_running, requeue_missing, recover_candidates,
  recover_orphaned_queued, reconcile,
}

module _ {ℓ} (Good : (A : Type 0) → M A → Type ℓ) (closed : Closed {S = World} Good)
    (calls : CallsGood Good)
    (requeueing : (t : Text) → Good (Unit {0}) (service (write (push_back t)))) where
  requeue_good : (t : Text) → Good (Unit {0}) (requeue t)
  unfolding requeue
  requeue_good t = requeueing t

  recover_each_good : (l : List ℕ) → Good (Unit {0}) (recover_each l)
  unfolding recover_each reset_to_queued
  recover_each_good [] = closed.of_pure _ tt
  recover_each_good (id ∷ l) = good_then Good closed _ _ _ (calls.moving id gives_back) (
      good_then Good closed _ _ _ (publish_good Good closed calls _ _ _)
        (good_then Good closed _ _ _ (requeue_good _) (recover_each_good l)))

  requeue_missing_good : (known : List Text) (l : List ℕ) → Good ℕ (requeue_missing known l)
  unfolding requeue_missing
  requeue_missing_good known [] = closed.of_pure _ 0
  requeue_missing_good known (id ∷ l) =
      let rest = requeue_missing_good known l in
      good_if Good closed _ (contains (uuid_str id) known) _ _ rest (
        good_then Good closed _ _ _ (requeue_good _)
          (closed.of_bind _ _ _ _ rest (λ n. closed.of_pure _ _)))

  recover_candidates_good : (l : List ℕ) → Good ℕ (recover_candidates l)
  unfolding recover_candidates queued_ids in_flight_ids
  recover_candidates_good [] = closed.of_pure _ 0
  recover_candidates_good (id ∷ l) = closed.of_bind _ _ _ _ (calls.reading _ _) (λ q.
      closed.of_bind _ _ _ _ (calls.reading _ _) (λ p. requeue_missing_good (q ++ p) (id ∷ l)))

  pub reconcile_good : (age grace : ℕ) → Good ReconcileStats (reconcile age grace)
  unfolding reconcile recover_abandoned_running recover_orphaned_queued find_stale_running
      find_orphan_queued
  reconcile_good age grace =
      closed.of_bind _ _ _ _
        (closed.of_bind _ _ _ _ (calls.reading _ _)
          (λ stale. good_then Good closed _ _ _ (recover_each_good stale) (closed.of_pure _ _)))
        (λ a.
          closed.of_bind _ _ _ _
            (closed.of_bind _ _ _ _ (calls.reading _ _) recover_candidates_good)
            (λ o. closed.of_pure _ _))
