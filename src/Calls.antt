-- ===== src/Calls.antt =====
-- The calls of Queue, Status and Repository without faults: each returns, and changes the world by
-- its operation. The operations leave the schedule alone, and are what the actions of others do.
use krmed_cloud_services.Base.{Text, ℕ, ◌≡◌, refl, Bool, keep_if, List, some}
use krmed_cloud_services.Effects.Runs.{Runs}
use krmed_cloud_services.Schema.{JobStatus, queued, running, Message}
use krmed_cloud_services.World.{
  World, JobRow, act, acks, requeues, moves_on, takes_last, Step, needs_status, moved, unsnoc,
  service, read, write,
}
use krmed_cloud_services.World.Calm.{IsCalm, service_calm}
use krmed_cloud_services.Queue.{
  ack, requeue, queued_ids, in_flight_ids, drop_processing, push_back, move_last,
}
use krmed_cloud_services.Status.{publish, put_status}
use krmed_cloud_services.Repository.{
  mark_running, heartbeat, mark_completed, mark_failed, reset_to_queued, find_stale_running,
  find_orphan_queued, get_model_meta, meta_of, select_model, update, set_running, set_seen,
  set_completed, set_failed, set_queued, ids, is_stale, is_orphan,
}

write-Runs : (f : World → World) (w : World) → IsCalm w → Runs (service (write f)) w tt (f w)
write-Runs f w h = record { returns = service_calm (write f) w h }

read-Runs : {A : Type 0} (f : World → A) (w : World) → IsCalm w → Runs (service (read f)) w (f w) w
read-Runs f w h = record { returns = service_calm (read f) w h }

module _ (w : World) (calm : IsCalm w) where
  pub ack-Runs : (t : Text) → Runs (ack t) w tt (drop_processing t w)
  unfolding ack
  ack-Runs t = write-Runs (drop_processing t) w calm

  pub requeue-Runs : (t : Text) → Runs (requeue t) w tt (push_back t w)
  unfolding requeue
  requeue-Runs t = write-Runs (push_back t) w calm

  pub queued_ids-Runs : Runs queued_ids w w.queue w
  unfolding queued_ids
  queued_ids-Runs = read-Runs (λ v. v.queue) w calm

  pub in_flight_ids-Runs : Runs in_flight_ids w w.processing w
  unfolding in_flight_ids
  in_flight_ids-Runs = read-Runs (λ v. v.processing) w calm

  pub publish-Runs :
      (t status : Text) (terminal : Bool)
      → Runs (publish t status terminal) w tt (put_status t status terminal w)
  unfolding publish
  publish-Runs t status terminal = write-Runs (put_status t status terminal) w calm

  pub mark_running-Runs : (id : ℕ) → Runs (mark_running id) w tt (update id queued set_running w)
  unfolding mark_running
  mark_running-Runs id = write-Runs (update id queued set_running) w calm

  pub heartbeat-Runs : (id : ℕ) → Runs (heartbeat id) w tt (update id running set_seen w)
  unfolding heartbeat
  heartbeat-Runs id = write-Runs (update id running set_seen) w calm

  pub mark_completed-Runs :
      (id : ℕ) (path : Text)
      → Runs (mark_completed id path) w tt (update id running (set_completed path) w)
  unfolding mark_completed
  mark_completed-Runs id path = write-Runs (update id running (set_completed path)) w calm

  pub mark_failed-Runs :
      (id : ℕ) (m : Message) → Runs (mark_failed id m) w tt (update id running (set_failed m) w)
  unfolding mark_failed
  mark_failed-Runs id m = write-Runs (update id running (set_failed m)) w calm

  pub reset_to_queued-Runs :
      (id : ℕ) → Runs (reset_to_queued id) w tt (update id running set_queued w)
  unfolding reset_to_queued
  reset_to_queued-Runs id = write-Runs (update id running set_queued) w calm

  pub find_stale_running-Runs :
      (age : ℕ) → Runs (find_stale_running age) w (ids (keep_if (is_stale age w.now) w.jobs)) w
  unfolding find_stale_running
  find_stale_running-Runs age = read-Runs (λ v. ids (keep_if (is_stale age v.now) v.jobs)) w calm

  pub find_orphan_queued-Runs :
      (grace : ℕ)
      → Runs (find_orphan_queued grace) w (ids (keep_if (is_orphan grace w.now) w.jobs)) w
  unfolding find_orphan_queued
  find_orphan_queued-Runs grace =
      read-Runs (λ v. ids (keep_if (is_orphan grace v.now) v.jobs)) w calm

  pub get_model_meta-Runs :
      (repo : Text) → Runs (get_model_meta repo) w (meta_of (select_model repo w.models)) w
  unfolding get_model_meta
  get_model_meta-Runs repo = read-Runs (λ v. meta_of (select_model repo v.models)) w calm

  pub drop_processing-IsCalm : (t : Text) → IsCalm (drop_processing t w)
  unfolding drop_processing
  drop_processing-IsCalm t = calm

  pub push_back-IsCalm : (t : Text) → IsCalm (push_back t w)
  unfolding push_back
  push_back-IsCalm t = calm

  pub put_status-IsCalm :
      (t status : Text) (terminal : Bool) → IsCalm (put_status t status terminal w)
  unfolding put_status
  put_status-IsCalm t status terminal = calm

  pub update-IsCalm :
      (id : ℕ) (expected : JobStatus) (f : ℕ → JobRow → JobRow) → IsCalm (update id expected f w)
  unfolding update
  update-IsCalm id expected f = calm

-- What an action of another worker does is what its call does.
act-drop_processing : (t : Text) (w : World) → act (acks t) w ≡ drop_processing t w
unfolding act drop_processing
act-drop_processing t w = refl

act-push_back : (t : Text) (w : World) → act (requeues t) w ≡ push_back t w
unfolding act push_back drop_processing
act-push_back t w = refl

act-update :
    (id : ℕ) (step : Step) (w : World)
    → act (moves_on id step) w ≡ update id (needs_status step) (moved step) w
unfolding act update
act-update id step w = refl

act-move_last :
    (block : ℕ) (w : World) (front : List Text) (last : Text)
    → unsnoc w.queue ≡ some (front, last)
    → act takes_last w ≡ (move_last block w).1
unfolding act move_last
act-move_last block w front last found = rw (found, move_last) refl
