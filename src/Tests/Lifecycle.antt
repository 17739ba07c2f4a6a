-- ===== src/Tests/Lifecycle.antt =====
-- The life cycle, the queue worked off and a crash, at concrete worlds.
use krmed_cloud_services.Base.{some}
use krmed_cloud_services.Base.{◌≡◌, refl, true, false, [], ◌∷◌, arith, contains, text_eq}
use krmed_cloud_services.Effects.{ok, killed, pure, ◌>>◌}
use krmed_cloud_services.Effects.Rules.{Keeps, Keeps-pure, Keeps-then, Preorder}
use krmed_cloud_services.Effects.Steady.{Steady}
use krmed_cloud_services.Schema.{running, status_eq}
use krmed_cloud_services.Schema.Uuid.{uuid_str}
use krmed_cloud_services.Schema.Uuid.RoundTrip.{uuid_of-uuid_str}
use krmed_cloud_services.World.{World, M, Action, act, has_job, killed_after}
use krmed_cloud_services.Repository.{lookup_json, find_row}
use krmed_cloud_services.Processor.{process}
use krmed_cloud_services.Processor.Refused.{served, failing, Misreported, process-Misreported}
use krmed_cloud_services.Repository.Table.{OnJobs-Preorder}
use krmed_cloud_services.Repository.Lifecycle.{Moves}
use krmed_cloud_services.Repository.Results.{WellKept, StaysKept-TableLaw}
use krmed_cloud_services.Executor.{stub_executor}
use krmed_cloud_services.Processor.Good.{ExecutorGood}
use krmed_cloud_services.Reconciler.Stuck.{IsStuck, rounds}
use krmed_cloud_services.Reconciler.Theorems.{Reconciles}
use krmed_cloud_services.Reconciler.Fresh.{reconcile-fresh}
use krmed_cloud_services.Main
use krmed_cloud_services.Main.{turn}
use krmed_cloud_services.Main.Lifecycle.{run-WellKept}
use krmed_cloud_services.Main.Moves.{ByMoves, returns, binds, run-ByMoves}
use krmed_cloud_services.Main.Crashed.{turn-IsStuck}
use krmed_cloud_services.Tests.Fixtures
use krmed_cloud_services.Tests.Fixtures.{row, claimed, stormy, settings}

-- The stub does nothing but beat.
stub-Keeps :
    {R : World → World → Type 0}
    → Preorder R
    → ExecutorGood (λ A (m : M A). Keeps R m) stub_executor
unfolding stub_executor
stub-Keeps order = record { at = λ job model h. Keeps-then order _ _ h (Keeps-pure order _) }

stub-ByMoves : ExecutorGood ByMoves stub_executor
unfolding stub_executor ◌>>◌
stub-ByMoves = record { at = λ job model h. binds _ _ _ _ h (λ _. returns _ _) }

run-ByMoves_example :
    ByMoves (Unit {0}) (Main.run settings stub_executor (pure tt) (false ∷ false ∷ true ∷ []))
    × ((a : Action) (w : World) → Moves w (act a w))
run-ByMoves_example =
    run-ByMoves settings stub_executor (pure tt) (false ∷ false ∷ true ∷ []) stub-ByMoves
      (returns _ tt)

run-WellKept_example :
    WellKept (Main.run settings stub_executor (pure tt) (false ∷ false ∷ true ∷ []) stormy).1.jobs
unfolding has_job status_eq
run-WellKept_example =
    run-WellKept settings stub_executor (pure tt) (false ∷ false ∷ true ∷ []) stormy
      (stub-Keeps (OnJobs-Preorder StaysKept-TableLaw))
      (Keeps-pure (OnJobs-Preorder StaysKept-TableLaw) tt)
      (refl, record { checkpoint = refl; error = refl }, tt)

-- Two jobs are queued, the first at the right end.
abbrev two_queued : World
two_queued = record claimed {
  jobs = row ∷ record row { id = 9 } ∷ [];
  queue = uuid_str 9 ∷ uuid_str 7 ∷ [];
  processing = [];
}

-- Job 7 has beaten a moment ago.
abbrev beating : World
beating = record claimed { jobs = record row { status = running; updated_at = 95 } ∷ [] }

reconcile-fresh_example :
    Reconciles 900 60 beating
      (λ _ v. find_row 7 v.jobs ≡ some (record row { status = running; updated_at = 95 }))
unfolding has_job status_eq
reconcile-fresh_example =
    reconcile-fresh 900 60 7 (record row { status = running; updated_at = 95 }) beating refl
      (refl, tt) refl refl

-- The worker dies right after the claim.
abbrev dying : World
dying = record two_queued {
  schedule = record { elapsed = 1; others = []; fault = killed_after } ∷ [];
}

turn-IsStuck_example :
    (v : World) × (turn settings stub_executor 0 dying ≡ (killed, v))
    × (u : World) × (rounds 900 60 (300 ∷ 3000 ∷ []) v ≡ (ok tt, u))
    × IsStuck 7 row u
unfolding contains uuid_str status_eq text_eq
turn-IsStuck_example =
    turn-IsStuck settings stub_executor 0 7 1 row (uuid_str 9 ∷ []) dying 900 60 (300 ∷ 3000 ∷ [])
      refl refl refl refl refl refl

-- The row is read, and `mark_running` is refused.
abbrev denied : World
denied = record claimed { schedule = served 1 ∷ failing 2 ∷ [] }

process-Misreported_example :
    (u : World) × (process stub_executor (uuid_str 7) denied ≡ (ok tt, u))
    × Misreported (uuid_str 7) 7 row u
unfolding lookup_json text_eq
process-Misreported_example =
    process-Misreported stub_executor (uuid_str 7) 7 1 2 row denied refl refl refl refl
      (uuid_of-uuid_str 7 (omega arith))
