-- ===== src/Main/Drain.antt =====
-- Without faults the loop works off the queue: it claims the jobs in the order in which they were
-- pushed, and each of them comes to an end.
use krmed_cloud_services.Base.{
  contains-remove_all, Text, ℕ, zero, suc, ◌+◌, ◌*◌, ◌≡◌, ◌∙◌, Bool, true, false, some, List, [],
  ◌∷◌, leb, contains, arith,
}
use krmed_cloud_services.Effects.Steady.{Steady}
use krmed_cloud_services.World.{World, M, JobRow, read, write}
use krmed_cloud_services.World.Calm.{IsCalm}
use krmed_cloud_services.Queue.{drop_processing}
use krmed_cloud_services.Status.{put_status}
use krmed_cloud_services.Repository.{find_row, update}
use krmed_cloud_services.Executor.{Executor}
use krmed_cloud_services.Processor.Frozen.{LeavesTerminal}
use krmed_cloud_services.Processor.Good.{CallsGood, ExecutorGood}
use krmed_cloud_services.Processor.Started.{is_settled, call}
use krmed_cloud_services.Processor.Settles.{Cooperates}
use krmed_cloud_services.Processor.Timed.{TakesAtMost}

-- No faults to come, and the text is not in flight.
pub record Absent (t : Text) (w : World) : Type 0 where
  pub calm : IsCalm w
  pub absent : contains t w.processing ≡ false

pub Absent-CallsGood : (t : Text) → CallsGood (λ A (m : M A). Steady (Absent t) m)
unfolding update put_status drop_processing
Absent-CallsGood t = record {
  reading = λ A f. call (read f) (λ w h. h.calm) (λ w h. h);
  moving = λ id step.
      call (write (update id _ _)) (λ w h. h.calm)
        (λ w h. record { calm = h.calm; absent = h.absent });
  publishing = λ id status terminal.
      call (write (put_status id status terminal)) (λ w h. h.calm)
        (λ w h. record { calm = h.calm; absent = h.absent });
  acking = λ s.
      call (write (drop_processing s)) (λ w h. h.calm)
        (λ w h. record { calm = h.calm; absent = contains-remove_all t s w.processing h.absent });
}

-- What the executor does besides its job: it returns or raises within `limit` seconds, and leaves
-- alone the terminal rows, the queue, and what is not in flight.
pub record StaysAside (limit : ℕ) (executor : Executor) : Type 0 where
  pub leaves : LeavesTerminal executor
  pub cooperates : Cooperates executor
  pub timed : TakesAtMost limit executor
  pub absent : (t : Text) → ExecutorGood (λ A (m : M A). Steady (Absent t) m) executor

-- The job of the text is there, in a terminal status, and the text is not in flight.
pub record Ended (t : Text) (w : World) : Type 0 where
  pub job :
      (id : ℕ) × (row : JobRow) × (find_row id w.jobs ≡ some row) × (is_settled (some row) ≡ true)
  pub acked : contains t w.processing ≡ false

-- `stop.is_set()` answers no, `n` times.
abbrev pub not_stopped : ℕ → List Bool
not_stopped zero = []
not_stopped (suc n) = false ∷ not_stopped n

-- The latest time after so many turns of at most `limit` seconds each.
abbrev pub budget : ℕ → ℕ → ℕ → ℕ
budget limit zero latest = latest
budget limit (suc n) latest = budget limit n (latest + limit)

pub budget-later : (limit n latest : ℕ) → leb latest (budget limit n latest) ≡ true
budget-later limit zero latest = ground arith
budget-later limit (suc n) latest = ground (arith, budget-later limit n (latest + limit))

pub budget_product : (limit n latest : ℕ) → budget limit n latest ≡ latest + n * limit
budget_product limit zero latest = omega arith
budget_product limit (suc n) latest = budget_product limit n (latest + limit) ∙ omega arith
