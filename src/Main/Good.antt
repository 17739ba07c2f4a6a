-- ===== src/Main/Good.antt =====
-- What holds of every call that a worker makes, and is kept by each way to build code, holds of a
-- whole run of the worker.
use krmed_cloud_services.Base.{
  Text, ℕ, ◌-◌, Bool, true, false, Option, none, some, List, [], ◌∷◌, leb,
}
use krmed_cloud_services.Effects.Closed.{Closed, good_then, good_if}
use krmed_cloud_services.Effects.{◌>>◌}
use krmed_cloud_services.World.{World, M, service, write}
use krmed_cloud_services.Queue.{claim, move_last, push_back}
use krmed_cloud_services.Executor.{Executor}
use krmed_cloud_services.Processor.Good.{CallsGood, ExecutorGood, process_good}
use krmed_cloud_services.Reconciler.Good.{reconcile_good}
use krmed_cloud_services.Main.{
  LoopConfig, monotonic, process_claimed, reconcile_if_due, turn, loop, run,
}

-- The calls of the loop and of the reconciler are good too.
pub record LoopGood {ℓ} (Good : (A : Type 0) → M A → Type ℓ) : Type (1 ⊔ ℓ) where
  pub calls : CallsGood Good
  pub requeueing : (t : Text) → Good (Unit {0}) (service (write (push_back t)))
  pub claiming : (block : ℕ) → Good (Option Text) (service (move_last block))
  pub clock : Good ℕ monotonic

module _ {ℓ} (Good : (A : Type 0) → M A → Type ℓ) (closed : Closed {S = World} Good)
    (all : LoopGood Good) (cfg : LoopConfig) (executor : Executor)
    (respects : ExecutorGood Good executor) where
  process_claimed_good : (raw : Option Text) → Good (Unit {0}) (process_claimed executor raw)
  unfolding process_claimed
  process_claimed_good none = closed.of_pure _ tt
  process_claimed_good (some raw) = process_good Good closed all.calls executor respects raw

  reconcile_if_due_good : (last now : ℕ) → Good ℕ (reconcile_if_due cfg last now)
  unfolding reconcile_if_due ◌>>◌
  reconcile_if_due_good last now =
      good_if Good closed _ (leb cfg.reconcile_interval_seconds (now - last)) _ _
        (closed.of_bind _ _ _ _
          (reconcile_good Good closed all.calls all.requeueing cfg.visibility_timeout_seconds
            cfg.orphan_grace_seconds)
          (λ _. all.clock))
        (closed.of_pure _ last)

  turn_good : (last : ℕ) → Good ℕ (turn cfg executor last)
  unfolding turn claim
  turn_good last = closed.of_bind _ _ _ _ (all.claiming cfg.queue_block_seconds) (λ raw.
      good_then Good closed _ _ _ (process_claimed_good raw)
        (closed.of_bind _ _ _ _ all.clock (reconcile_if_due_good last)))

  loop_good : (last : ℕ) (answers : List Bool) → Good (Unit {0}) (loop cfg executor last answers)
  unfolding loop
  loop_good last [] = closed.of_pure _ tt
  loop_good last (true ∷ answers) = closed.of_pure _ tt
  loop_good last (false ∷ answers) =
      closed.of_bind _ _ _ _ (turn_good last) (λ next. loop_good next answers)

  pub run_good :
      (close : M (Unit {0})) (answers : List Bool)
      → Good (Unit {0}) close
      → Good (Unit {0}) (run cfg executor close answers)
  unfolding run ◌>>◌
  run_good close answers closes =
      closed.of_finally _ _ _
        (closed.of_bind _ _ _ _
          (reconcile_good Good closed all.calls all.requeueing cfg.visibility_timeout_seconds
            cfg.orphan_grace_seconds)
          (λ _. closed.of_bind _ _ _ _ all.clock (λ start. loop_good start answers)))
        closes
