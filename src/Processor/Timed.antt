-- ===== src/Processor/Timed.antt =====
-- How long a job takes without faults: no longer than its executor, and the queue stays as it was.
use krmed_cloud_services.Base.{Text, ℕ, ◌+◌, ◌≡◌, true, Option, none, some, List, leb, arith}
use krmed_cloud_services.Effects.{Result, ok, raised, killed}
use krmed_cloud_services.Effects.Rules.{
  After, Triple, Triple-then, Triple-bind, Triple-attempt, Triple-if, Impossible,
}
use krmed_cloud_services.Effects.Closed.{Steady-Closed}
use krmed_cloud_services.Effects.Steady.{Steady}
use krmed_cloud_services.Schema.{Job, is_terminal}
use krmed_cloud_services.Schema.Uuid.{uuid_of}
use krmed_cloud_services.World.{World, M, starts, read, write}
use krmed_cloud_services.World.Calm.{IsCalm}
use krmed_cloud_services.Queue.{drop_processing}
use krmed_cloud_services.Status.{put_status}
use krmed_cloud_services.Repository.{ModelMeta, update, mark_running}
use krmed_cloud_services.Executor.{Executor}
use krmed_cloud_services.Processor.{process, dispatch, handle, execute, run, message_of, beat}
use krmed_cloud_services.Processor.Good.{
  CallsGood, ExecutorGood, beat_good, publish_good, ack_good, get_job_good, preflight_good,
  finish_good, fail_good,
}
use krmed_cloud_services.Processor.Started.{call}

-- No faults to come, the queue is as given, and it is not later than `latest`.
pub record Within (queue : List Text) (latest : ℕ) (w : World) : Type 0 where
  pub calm : IsCalm w
  pub same_queue : w.queue ≡ queue
  pub early : leb w.now latest ≡ true

-- An executor that returns or raises within `limit` seconds, and leaves the queue alone.
pub record TakesAtMost (limit : ℕ) (executor : Executor) : Type 0 where
  pub at :
      (queue : List Text) (latest : ℕ) (job : Job) (model : ModelMeta)
      → Triple
          (Within queue latest)
          (executor job model (beat job.id))
          (λ _. Within queue (latest + limit))
          (λ _. Within queue (latest + limit))
          Impossible

Within-later :
    (queue : List Text) (latest limit : ℕ) (w : World)
    → Within queue latest w
    → Within queue (latest + limit) w
Within-later queue latest limit w h = record {
  calm = h.calm;
  same_queue = h.same_queue;
  early = ground (arith, h.early);
}

-- The bound of a raise, and of a return, may be weaker than what is known.
module _ {P Q : World → Type 0} (weaker : (w : World) → P w → Q w) where
  raise_later :
      {A : Type 0} (r : Result A × World)
      → After (λ _. P) (λ _. P) Impossible r
      → After (λ _. P) (λ _. Q) Impossible r
  raise_later (ok a, w) h = h
  raise_later (raised e, w) h = weaker w h
  raise_later (killed, w) h = h

  both_later :
      {A : Type 0} (r : Result A × World)
      → After (λ _. P) (λ _. P) Impossible r
      → After (λ _. Q) (λ _. Q) Impossible r
  both_later (ok a, w) h = weaker w h
  both_later (raised e, w) h = weaker w h
  both_later (killed, w) h = h

  Steady-raise_later : {A : Type 0} {m : M A} → Steady P m → Triple P m (λ _. P) (λ _. Q) Impossible
  Steady-raise_later {m = m} h = record { at = λ w p. raise_later (m w) (h.at w p) }

  Steady-both_later : {A : Type 0} {m : M A} → Steady P m → Triple P m (λ _. Q) (λ _. Q) Impossible
  Steady-both_later {m = m} h = record { at = λ w p. both_later (m w) (h.at w p) }

Within-CallsGood :
    (queue : List Text) (latest : ℕ) → CallsGood (λ A (m : M A). Steady (Within queue latest) m)
unfolding update put_status drop_processing
Within-CallsGood queue latest = record {
  reading = λ A f. call (read f) (λ w h. h.calm) (λ w h. h);
  moving = λ id step.
      call (write (update id _ _)) (λ w h. h.calm)
        (λ w h. record { calm = h.calm; same_queue = h.same_queue; early = h.early });
  publishing = λ id status terminal.
      call (write (put_status id status terminal)) (λ w h. h.calm)
        (λ w h. record { calm = h.calm; same_queue = h.same_queue; early = h.early });
  acking = λ t.
      call (write (drop_processing t)) (λ w h. h.calm)
        (λ w h. record { calm = h.calm; same_queue = h.same_queue; early = h.early });
}

-- An executor that keeps each bound takes no time.
pub ExecutorGood-TakesAtMost :
    (limit : ℕ) (executor : Executor)
    → ((queue : List Text) (latest : ℕ)
        → ExecutorGood (λ A (m : M A). Steady (Within queue latest) m) executor)
    → TakesAtMost limit executor
ExecutorGood-TakesAtMost limit executor good = record {
  at = λ queue latest job model. Steady-both_later (Within-later queue latest limit) (
      (good queue latest).at job model (
        beat_good (λ A m. Steady (Within queue latest) m) (Steady-Closed (Within queue latest))
          (Within-CallsGood queue latest) job.id));
}

module _ (limit : ℕ) (executor : Executor) (timed : TakesAtMost limit executor) (queue : List Text)
    (latest : ℕ) where
  abbrev Now : World → Type 0
  Now = Within queue latest

  abbrev Then : World → Type 0
  Then = Within queue (latest + limit)

  abbrev Lasts : {A : Type 0} → M A → Type 0
  Lasts m = Triple Now m (λ _. Then) (λ _. Then) Impossible

  Now-Then : (w : World) → Now w → Then w
  Now-Then = Within-later queue latest limit

  run-Lasts : (job : Job) → Lasts (run executor job)
  unfolding run mark_running
  run-Lasts job =
      let calls = Within-CallsGood queue latest in
      let good = λ (A : Type 0) (m : M A). Steady Now m in
      Triple-then Now _ _ (Steady-raise_later Now-Then (calls.moving job.id starts)) (
        Triple-then Now _ _
          (Steady-raise_later Now-Then (publish_good good (Steady-Closed Now) calls _ _ _))
          (Triple-bind (λ _. Now) _ _
            (Steady-raise_later Now-Then (preflight_good good (Steady-Closed Now) calls job))
            (λ model.
              Triple-bind (λ _. Then) _ _ (timed.at queue latest job model)
                (λ result.
                  finish_good (λ A m. Steady Then m) (Steady-Closed Then)
                    (Within-CallsGood queue (latest + limit)) job.id result.checkpoint_path))))

  handle-Lasts : (raw : Text) (id : ℕ) (found : Option Job) → Lasts (handle executor raw id found)
  unfolding handle execute
  handle-Lasts raw id none =
      Steady-both_later Now-Then
        (ack_good (λ A m. Steady Now m) (Steady-Closed Now) (Within-CallsGood queue latest) raw)
  handle-Lasts raw id (some job) =
      let later = λ (A : Type 0) (m : M A). Steady Then m in
      let calls = Within-CallsGood queue (latest + limit) in
      Triple-if (is_terminal job.status) _ _
        (Steady-both_later Now-Then
          (ack_good (λ A m. Steady Now m) (Steady-Closed Now) (Within-CallsGood queue latest) raw))
        (Triple-attempt (λ _. Then) (λ _. Then) (run executor job) _ _ (run-Lasts job)
          (λ e. fail_good later (Steady-Closed Then) calls raw id (message_of e))
          (λ _. ack_good later (Steady-Closed Then) calls raw))

  dispatch-Lasts : (raw : Text) (parsed : Option ℕ) → Lasts (dispatch executor raw parsed)
  unfolding dispatch
  dispatch-Lasts raw none =
      Steady-both_later Now-Then
        (ack_good (λ A m. Steady Now m) (Steady-Closed Now) (Within-CallsGood queue latest) raw)
  dispatch-Lasts raw (some id) =
      Triple-bind (λ _. Now) _ _
        (Steady-raise_later Now-Then (
          get_job_good (λ A m. Steady Now m) (Steady-Closed Now) (Within-CallsGood queue latest)
            id))
        (handle-Lasts raw id)

  -- Processing a job takes no longer than its executor.
  pub process-Lasts : (raw : Text) → Lasts (process executor raw)
  unfolding process
  process-Lasts raw = dispatch-Lasts raw (uuid_of raw)
