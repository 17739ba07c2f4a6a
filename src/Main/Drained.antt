-- ===== src/Main/Drained.antt =====
-- The loop on a queue of jobs, one turn after another.
use krmed_cloud_services.Base.{All, All-imp}
use krmed_cloud_services.Base.{
  Text, ℕ, zero, suc, ◌+◌, ◌-◌, ◌≡◌, refl, ap, sym, ◌∙◌, true, false, some, List, [], ◌∷◌, ◌++◌,
  reverse, leb, length, contains, text_eq, text_eq_iff, Bool-cases, inl, inr, arith, subst,
}
use mathlib.Core.List.{reverse-append}
use krmed_cloud_services.Effects.{ok}
use krmed_cloud_services.Effects.Rules.{After, Triple, Impossible}
use krmed_cloud_services.Effects.Closed.{Steady-Closed}
use krmed_cloud_services.Effects.Runs.{Runs, Runs-pure, Runs-bind, Runs-then}
use krmed_cloud_services.Effects.Steady.{Steady}
use krmed_cloud_services.Effects.Rules.{After, Triple, Impossible}
use krmed_cloud_services.World.{World, M}
use krmed_cloud_services.Queue.Order.{claim-Runs, claim_empty-Runs}
use krmed_cloud_services.Repository.Frozen.{Evolves, Evolves-order}
use krmed_cloud_services.Repository.Readable.{
  Readable, Readable-Evolves, get_job_returns, find_row-Evolves,
}
use krmed_cloud_services.Executor.{Executor}
use krmed_cloud_services.Processor.{process}
use krmed_cloud_services.Processor.Frozen.{process-Evolves}
use krmed_cloud_services.Processor.Good.{process_good}
use krmed_cloud_services.Processor.Started.{is_settled}
use krmed_cloud_services.Processor.Settles.{process_settles}
use krmed_cloud_services.Main.{LoopConfig, monotonic, process_claimed, reconcile_if_due, turn, loop}
use krmed_cloud_services.Main.Drain.{
  Absent, Absent-CallsGood, StaysAside, Ended, not_stopped, budget, budget-later,
}
use krmed_cloud_services.Processor.Timed.{Within, process-Lasts}

-- What one turn, or several, leave: no faults to come, `queue` on the queue, a time not after
-- `latest`, the table further on, and no text in flight that was not.
pub record Onward (queue : List Text) (latest : ℕ) (w u : World) : Type 0 where
  within : Within queue latest u
  evolves : Evolves w u
  absent : (s : Text) → contains s w.processing ≡ false → contains s u.processing ≡ false

-- What holds after a return, of the state that is known to be left.
triple_at :
    {A : Type 0} {P Q : World → Type 0} {m : M A} {w u : World} {a : A}
    → Triple P m (λ _. Q) (λ _. Q) Impossible
    → P w
    → m w ≡ (ok a, u)
    → Q u
triple_at {Q = Q} {w = w} triple h e = subst (After (λ _. Q) (λ _. Q) Impossible) e (triple.at w h)

-- A job that has ended stays ended, if its text stays off the list.
Ended-Evolves :
    (t : Text) (w u : World) → Evolves w u → contains t u.processing ≡ false → Ended t w → Ended t u
Ended-Evolves t w u evolves acked h =
    let (id, row, found, settled) = h.job in
    let (row', found', change) = find_row-Evolves id w.jobs u.jobs evolves found in
    record {
      job = (id, row', found', ap (λ r. is_settled (some r)) (change.frozen settled) ∙ settled);
      acked = acked;
    }

module _ (cfg : LoopConfig) (last limit : ℕ) (executor : Executor)
    (aside : StaysAside limit executor) (waits : leb cfg.queue_block_seconds limit ≡ true) where
  -- The job of a claimed text.
  process_step :
      (t : Text) (front : List Text) (latest : ℕ) (w : World)
      → Within front latest w
      → Readable w.jobs t
      → (u : World) × Runs (process executor t) w tt u
        × Within front (latest + limit) u
        × Evolves w u
        × ((s : Text) → contains s w.processing ≡ false → contains s u.processing ≡ false)
        × Ended t u
  process_step t front latest w still r =
      let (job, reads) = get_job_returns w t r still.calm in
      let (u, ran, done) =
        process_settles executor aside.cooperates t r.id (some job) w w still.calm r.parsed reads in
      let evolves : Evolves w u =
        subst (λ x. Evolves w x.1) ran (process-Evolves executor aside.leaves t w) in
      let (row, found, change) = find_row-Evolves r.id w.jobs u.jobs evolves r.found in
      (
        u,
        record { returns = ran },
        triple_at (process-Lasts limit executor aside.timed front latest t) still ran,
        evolves,
        λ s out.
            (triple_at
              (process_good (λ A m. Steady (Absent s) m) (Steady-Closed (Absent s))
                (Absent-CallsGood s) executor (aside.absent s) t)
              (record { calm = still.calm; absent = out }) ran).absent,
        record {
          job = (r.id, row, found, ap is_settled (sym found) ∙ done.settled);
          acked = done.acked;
        },
      )

  -- The clock has not reached the next reconciliation.
  not_due :
      (now latest : ℕ)
      → leb now latest ≡ true
      → leb cfg.reconcile_interval_seconds (latest - last) ≡ false
      → leb cfg.reconcile_interval_seconds (now - last) ≡ false
  not_due now latest h early = ground arith

  -- A claim, its job, and no reconciliation.
  turn_step :
      (t : Text) (front : List Text) (latest : ℕ) (w : World)
      → Within (front ++ t ∷ []) latest w
      → leb cfg.reconcile_interval_seconds (latest + limit - last) ≡ false
      → Readable w.jobs t
      → (u : World) × Runs (turn cfg executor last) w last u
        × Onward front (latest + limit) w u
        × Ended t u
  unfolding turn process_claimed reconcile_if_due monotonic
  turn_step t front latest w still early r =
      let v = record w { queue = front; processing = t ∷ w.processing } in
      let (u, ran, later, evolves, out, ended) =
        process_step t front latest v
          (record { calm = still.calm; same_queue = refl; early = still.early }) r in
      (
        u,
        Runs-bind _ (claim-Runs cfg.queue_block_seconds w front t still.calm still.same_queue) (
            Runs-then ran (
              Runs-bind _ (record { returns = refl })
                (record {
                  returns =
                      rw (not_due u.now (latest + limit) later.early early)
                        (Runs-pure last u).returns;
                }))),
        record {
          within = later;
          evolves = evolves;
          absent = λ s h. elim (Bool-cases (text_eq t s)) [
            | inl same ↦
                subst (λ x. contains x u.processing ≡ false) ((text_eq_iff t s).0 same) ended.acked
            | inr other ↦ out s (unfold contains in rw other h)
          ];
        },
        ended,
      )

  -- A turn on an empty queue waits for its claim.
  idle_turn :
      (latest : ℕ) (w : World)
      → Within [] latest w
      → leb cfg.reconcile_interval_seconds (latest + limit - last) ≡ false
      → (u : World) × Runs (turn cfg executor last) w last u × Onward [] (latest + limit) w u
  unfolding turn process_claimed reconcile_if_due monotonic
  idle_turn latest w still early =
      let u = record w { now = w.now + cfg.queue_block_seconds } in
      let later : leb u.now (latest + limit) ≡ true = ground (arith, still.early) in
      (
        u,
        Runs-bind _ (claim_empty-Runs cfg.queue_block_seconds w still.calm still.same_queue) (
            Runs-then (Runs-pure tt u) (
              Runs-bind _ (record { returns = refl })
                (record {
                  returns =
                      rw (not_due u.now (latest + limit) later early) (Runs-pure last u).returns;
                }))),
        record {
          within = record { calm = still.calm; same_queue = still.same_queue; early = later };
          evolves = Evolves-order.reflexive w;
          absent = λ s h. h;
        },
      )

  Onward-trans :
      {front : List Text} {middle latest : ℕ} {w v u : World}
      → Onward front middle w v
      → Onward [] latest v u
      → Onward [] latest w u
  Onward-trans {w = w} {v = v} {u = u} on more = record {
    within = more.within;
    evolves = Evolves-order.transitive w v u on.evolves more.evolves;
    absent = λ s h. more.absent s (on.absent s h);
  }

  pub loop-Onward :
      (ts : List Text) (n latest : ℕ) (w : World)
      → leb (length ts) n ≡ true
      → Within (reverse ts) latest w
      → leb cfg.reconcile_interval_seconds (budget limit n latest - last) ≡ false
      → All (Readable w.jobs) ts
      → (u : World) × Runs (loop cfg executor last (not_stopped n)) w tt u
        × Onward [] (budget limit n latest) w u
        × All (λ t. Ended t u) ts
  unfolding loop
  loop-Onward [] zero latest w enough still early r = (
    w,
    Runs-pure tt w,
    record { within = still; evolves = Evolves-order.reflexive w; absent = λ s h. h },
    tt,
  )
  loop-Onward [] (suc n) latest w enough still early r =
      let (v, first, on) = idle_turn latest w still (
        not_due (latest + limit) (budget limit n (latest + limit))
          (budget-later limit n (latest + limit)) early) in
      let (u, ran, more, rest) =
        loop-Onward [] n (latest + limit) v (ground arith) on.within early tt in
      (u, Runs-bind _ first ran, Onward-trans on more, tt)
  loop-Onward (t ∷ ts) zero latest w enough still early r = ground arith
  loop-Onward (t ∷ ts) (suc n) latest w enough still early (r, rs) =
      let (v, first, on, ended) =
        turn_step t (reverse ts) latest w
          (record {
            calm = still.calm;
            same_queue = still.same_queue ∙ reverse-append (t ∷ []) ts;
            early = still.early;
          })
          (not_due (latest + limit) (budget limit n (latest + limit))
            (budget-later limit n (latest + limit)) early)
          r in
      let (u, ran, more, rest) =
        loop-Onward ts n (latest + limit) v (ground arith) on.within early
          (All-imp ts (λ s. Readable-Evolves s w.jobs v.jobs on.evolves) rs) in
      (
        u,
        Runs-bind _ first ran,
        Onward-trans on more,
        (Ended-Evolves t v u more.evolves (more.absent t ended.acked) ended, rest),
      )
