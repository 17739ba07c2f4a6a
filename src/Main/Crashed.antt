-- ===== src/Main/Crashed.antt =====
-- A worker that dies in the middle of a turn, and what the reconciliations that follow make of it.
use krmed_cloud_services.Base.{
  Text, ℕ, ◌+◌, ◌≡◌, refl, ap, ◌∙◌, false, some, List, [], ◌∷◌, ◌++◌, contains, text_eq_refl,
}
use krmed_cloud_services.Effects.{Exec, ok, killed, continue, ◌>>=◌}
use krmed_cloud_services.Schema.{queued}
use krmed_cloud_services.Schema.Uuid.{uuid_str}
use krmed_cloud_services.World.{World, JobRow, killed_after, unsnoc, service, happen, act_all}
use krmed_cloud_services.Queue.{claim, move_last}
use krmed_cloud_services.Queue.Order.{unsnoc-snoc}
use krmed_cloud_services.Repository.{find_row}
use krmed_cloud_services.Executor.{Executor}
use krmed_cloud_services.Reconciler.Stuck.{IsStuck, running_texts, rounds, rounds-IsStuck}
use krmed_cloud_services.Main.{LoopConfig, turn}

claim_killed :
    (block id n : ℕ) (front : List Text) (w : World)
    → w.schedule ≡ record { elapsed = n; others = []; fault = killed_after } ∷ []
    → w.queue ≡ front ++ uuid_str id ∷ []
    → claim block w ≡ (
      killed,
      record w {
        queue = front;
        processing = uuid_str id ∷ w.processing;
        now = w.now + n;
        schedule = [];
      },
    )
unfolding claim service happen act_all move_last
claim_killed block id n front w dies e =
    rw dies (rw (ap unsnoc e ∙ unsnoc-snoc front (uuid_str id), move_last) refl)

killed_bind :
    {S A B : Type 0} (m : Exec S A) (f : A → Exec S B) {s t : S}
    → m s ≡ (killed, t)
    → (m >>= f) s ≡ (killed, t)
unfolding ◌>>=◌
killed_bind m f h = ap (λ r. continue r f) h

-- When a worker is killed right after the claim of the id of a queued job, which is on the queue
-- once and not that of a running job, and nothing else goes wrong: whatever reconciliations
-- follow, however many, however late and with whichever limits, each returns, and after them the
-- job is still queued and its id still in flight and not on the queue, where no worker claims it.
pub turn-IsStuck :
    (cfg : LoopConfig) (executor : Executor) (last id n : ℕ) (row : JobRow) (front : List Text)
    (w : World) (age grace : ℕ) (ns : List ℕ)
    → w.schedule ≡ record { elapsed = n; others = []; fault = killed_after } ∷ []
    → w.queue ≡ front ++ uuid_str id ∷ []
    → contains (uuid_str id) front ≡ false
    → find_row id w.jobs ≡ some row
    → row.status ≡ queued
    → contains (uuid_str id) (running_texts w.jobs) ≡ false
    → (v : World) × (turn cfg executor last w ≡ (killed, v))
      × (u : World) × (rounds age grace ns v ≡ (ok tt, u))
      × IsStuck id row u
unfolding turn
turn-IsStuck cfg executor last id n row front w age grace ns dies e once found waits idle =
    let v = record w {
      queue = front;
      processing = uuid_str id ∷ w.processing;
      now = w.now + n;
      schedule = [];
    } in
    let (u, ran, stuck) = rounds-IsStuck age grace id row ns v refl (record {
      found = found;
      waits = waits;
      not_running = idle;
      in_flight = unfold contains in rw (text_eq_refl (uuid_str id)) refl;
      not_queued = once;
    }) in
    (
      v,
      killed_bind (claim cfg.queue_block_seconds) _
          (claim_killed cfg.queue_block_seconds id n front w dies e),
      u,
      ran.returns,
      stuck,
    )
