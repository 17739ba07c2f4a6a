-- ===== src/Processor/Acks.antt =====
-- A job whose processing returns is off the in-flight list, and no other job is taken off.
use krmed_cloud_services.Base.{
  Text, ℕ, ◌≡◌, false, Option, none, some, contains, contains-remove_all_self,
}
use krmed_cloud_services.Effects.{ok}
use krmed_cloud_services.Effects.Rules.{
  Triple, after_ok, any_run, Triple-bind, Triple-then, Triple-attempt, Triple-if, Anything,
}
use krmed_cloud_services.World.{World, M, write}
use krmed_cloud_services.World.Calm.{Triple-service}
use krmed_cloud_services.Schema.{is_terminal, Message, Job}
use krmed_cloud_services.Schema.Uuid.{uuid_of}
use krmed_cloud_services.Queue.{ack, drop_processing}
use krmed_cloud_services.Executor.{Executor}
use krmed_cloud_services.Repository.{get_job}
use krmed_cloud_services.Processor.{process, dispatch, handle, execute, run, fail, message_of}

module _ (raw : Text) where
  abbrev Acked : World → Type 0
  Acked w = contains raw w.processing ≡ false

  abbrev Leaves : M (Unit {0}) → Type 0
  Leaves m = Triple Anything m (λ _. Acked) (λ _. Anything) Anything

  ack-Leaves : Leaves (ack raw)
  unfolding ack drop_processing
  ack-Leaves =
      Triple-service (λ _. Acked) (write (drop_processing raw))
        (λ w. contains-remove_all_self raw w.processing)

  fail-Leaves : (id : ℕ) (msg : Message) → Leaves (fail raw id msg)
  unfolding fail
  fail-Leaves id msg =
      Triple-then Anything _ _ (any_run _) (Triple-then Anything _ _ (any_run _) ack-Leaves)

  module _ (executor : Executor) where
    execute-Leaves : (id : ℕ) (job : Job) → Leaves (execute executor raw id job)
    unfolding execute
    execute-Leaves id job =
        Triple-attempt (λ _. Anything) (λ _. Anything) (run executor job) _ _ (any_run _)
          (λ e. fail-Leaves id (message_of e)) (λ _. ack-Leaves)

    handle-Leaves : (id : ℕ) (found : Option Job) → Leaves (handle executor raw id found)
    unfolding handle
    handle-Leaves id none = ack-Leaves
    handle-Leaves id (some job) =
        Triple-if (is_terminal job.status) _ _ ack-Leaves (execute-Leaves id job)

    dispatch-Leaves : (parsed : Option ℕ) → Leaves (dispatch executor raw parsed)
    unfolding dispatch
    dispatch-Leaves none = ack-Leaves
    dispatch-Leaves (some id) =
        Triple-bind (λ _. Anything) (get_job id) _ (any_run _) (handle-Leaves id)

    process-Leaves : Leaves (process executor raw)
    unfolding process
    process-Leaves = dispatch-Leaves (uuid_of raw)

-- Whatever the executor does, whatever fails and whatever the backend and other workers do: when `process` returns, the job
-- id it was given is nowhere in the in-flight list.
pub process-acks :
    (executor : Executor) (raw : Text) (w v : World)
    → process executor raw w ≡ (ok tt, v)
    → contains raw v.processing ≡ false
process-acks executor raw w v e =
    after_ok (λ _. Acked raw) (process executor raw w) tt v ((process-Leaves raw executor).at w tt)
      e
