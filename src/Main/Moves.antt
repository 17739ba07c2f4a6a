-- ===== src/Main/Moves.antt =====
-- What a run of a worker is made of: calls of Postgres and Redis one after another, each of which takes
-- a row along the life cycle by one change at most.
use krmed_cloud_services.Base.{ℕ, ◌≡◌, refl, List, Bool, arith}
use krmed_cloud_services.Effects.{Exn, ok, pure, raise, ◌>>=◌, attempt, finally}
use krmed_cloud_services.Effects.Closed.{Closed}
use krmed_cloud_services.World.{World, M, Action, needs_status, moved, act, service, read, write}
use krmed_cloud_services.Queue.{move_last, drop_processing, push_back}
use krmed_cloud_services.Status.{put_status}
use krmed_cloud_services.Repository.{update}
use krmed_cloud_services.Repository.Lifecycle.{Moves, moving-Moves, act-Moves, same_jobs-Moves}
use krmed_cloud_services.Executor.{Executor}
use krmed_cloud_services.Processor.Good.{CallsGood, ExecutorGood}
use krmed_cloud_services.Main.{LoopConfig, monotonic, run}
use krmed_cloud_services.Main.Good.{LoopGood, run_good}

-- Code that reads the clock and the world, raises, catches and cleans up as it likes, and changes the
-- world by calls alone; a call, by itself, takes each row along by one change of status at most.
pub data ByMoves : (A : Type 0) → M A → Type 1 where
  returns : (A : Type 0) (a : A) → ByMoves A (pure a)
  raises : (A : Type 0) (e : Exn) → ByMoves A (raise e)
  looks : (A : Type 0) (f : World → A) → ByMoves A (λ w. (ok (f w), w))
  calls :
      (A : Type 0) (op : World → A × World)
      → ((w : World) → Moves w (op w).1)
      → ByMoves A (service op)
  binds :
      (A B : Type 0) (m : M A) (f : A → M B)
      → ByMoves A m
      → ((a : A) → ByMoves B (f a))
      → ByMoves B (m >>= f)
  attempts :
      (A B : Type 0) (m : M A) (h : Exn → M B) (f : A → M B)
      → ByMoves A m
      → ((e : Exn) → ByMoves B (h e))
      → ((a : A) → ByMoves B (f a))
      → ByMoves B (attempt m h f)
  finishes :
      (A : Type 0) (m : M A) (c : M (Unit {0}))
      → ByMoves A m
      → ByMoves (Unit {0}) c
      → ByMoves A (finally m c)

ByMoves-Closed : Closed {S = World} ByMoves
ByMoves-Closed = record {
  of_pure = returns;
  of_raise = raises;
  of_bind = binds;
  of_attempt = attempts;
  of_finally = finishes;
}

same_jobs-calls :
    (A : Type 0) (op : World → A × World)
    → ((w : World) → (op w).1.jobs ≡ w.jobs)
    → ByMoves A (service op)
same_jobs-calls A op same = calls A op (λ w. same_jobs-Moves w (op w).1 (same w))

ByMoves-CallsGood : CallsGood ByMoves
unfolding update put_status drop_processing
ByMoves-CallsGood = record {
  reading = λ A f. same_jobs-calls A (read f) (λ w. refl);
  moving = λ id step.
      calls _ (write (update id (needs_status step) (moved step)))
        (λ w. moving-Moves id w.now step w.jobs);
  publishing =
      λ id status terminal. same_jobs-calls _ (write (put_status id status terminal)) (λ w. refl);
  acking = λ t. same_jobs-calls _ (write (drop_processing t)) (λ w. refl);
}

ByMoves-LoopGood : LoopGood ByMoves
unfolding push_back drop_processing move_last monotonic
ByMoves-LoopGood = record {
  calls = ByMoves-CallsGood;
  requeueing = λ t. same_jobs-calls _ (write (push_back t)) (λ w. refl);
  claiming = λ block. same_jobs-calls _ (move_last block) (λ w. ground arith);
  clock = looks ℕ (λ w. w.now);
}

-- A whole run of a worker, of any length, is built from calls of Postgres and Redis, each of which
-- leaves every row in the table and its id as it was, and its status as it was or changed once as
-- `StatusMove` says: queued to running or cancelled, running to completed, failed, cancelled or back
-- to queued, and nowhere from a terminal status; nothing else in the run changes the world, what
-- happens at a call apart. The same holds of each action of others that can happen at a call.
-- Supposed: the executor is so built if its heartbeat is, and so is the closing of the client.
pub run-ByMoves :
    (cfg : LoopConfig) (executor : Executor) (close : M (Unit {0})) (answers : List Bool)
    → ExecutorGood ByMoves executor
    → ByMoves (Unit {0}) close
    → ByMoves (Unit {0}) (run cfg executor close answers)
      × ((a : Action) (w : World) → Moves w (act a w))
run-ByMoves cfg executor close answers respects closes = (
  run_good ByMoves ByMoves-Closed ByMoves-LoopGood cfg executor respects close answers closes,
  act-Moves,
)
