-- ===== src/Tests/Worker.antt =====
-- The worker loop, the processor and the reconciler at concrete worlds.
use krmed_cloud_services.Base.{
  All, ◌≡◌, refl, true, false, some, [], ◌∷◌, arith, codes, contains, count, text_eq, remove_all,
}
use krmed_cloud_services.Effects.{ok, raised, key_error, pure, raise, or_raise, ◌>>=◌}
use krmed_cloud_services.Effects.Rules.{Keeps-pure}
use krmed_cloud_services.Schema.{completed, cancelled, status_eq, status_value}
use krmed_cloud_services.Schema.Uuid.{uuid_str, uuid_of}
use krmed_cloud_services.Schema.Uuid.RoundTrip.{uuid_of-uuid_str}
use krmed_cloud_services.World.{World, service}
use krmed_cloud_services.Queue.{ack, drop_processing}
use krmed_cloud_services.Stores.{inside}
use krmed_cloud_services.Status.{hash_of, terminal_ttl_seconds}
use krmed_cloud_services.Repository.{
  find_row, get_job, row_to_job, to_job, lookup_json, is_stale, is_orphan,
}
use krmed_cloud_services.Repository.Frozen.{Evolves, Evolves-order}
use krmed_cloud_services.Executor.{stub_executor, Seams}
use krmed_cloud_services.Executor.Contract.{stub_executor-Cooperates, stub_executor-LeavesTerminal}
use krmed_cloud_services.Processor.{process, finish, dispatch}
use krmed_cloud_services.Processor.Acks.{process-acks}
use krmed_cloud_services.Processor.Settles.{IsFinished, process_settles}
use krmed_cloud_services.Processor.Poison.{process_unreadable}
use krmed_cloud_services.Processor.Cancelled.{finish_cancelled}
use krmed_cloud_services.Reconciler.Calm.{stale_ids, orphan_ids, live}
use krmed_cloud_services.Reconciler.Recovery.{IsWaiting}
use krmed_cloud_services.Reconciler.Theorems.{
  Reconciles, reconcile-stale, reconcile-orphan, reconcile-live, reconcile-count,
}
use krmed_cloud_services.Reconciler.Parsed.{Parses, reconcile-Parses}
use krmed_cloud_services.Main
use krmed_cloud_services.Tests.Fixtures.{
  row, claimed, job, abandoned, orphaned, stormy, settings, bare,
}
use krmed_cloud_services.Main.{LoopConfig}
use krmed_cloud_services.Main.Frozen.{run-Evolves}

process_settles_example :
    (u : World) × (process stub_executor (uuid_str 7) claimed ≡ (ok tt, u))
    × IsFinished (uuid_str 7) 7 u
unfolding get_job to_job row_to_job lookup_json service or_raise pure raise ◌>>=◌ text_eq
process_settles_example =
    process_settles stub_executor stub_executor-Cooperates (uuid_str 7) 7 (some job) claimed claimed
      refl (uuid_of-uuid_str 7 (omega arith)) refl

run-Evolves_example :
    Evolves stormy (Main.run settings stub_executor (pure tt) (false ∷ false ∷ true ∷ []) stormy).1
run-Evolves_example =
    run-Evolves settings stub_executor stub_executor-LeavesTerminal (pure tt)
      (false ∷ false ∷ true ∷ []) stormy (Keeps-pure Evolves-order tt)

reconcile-stale_example : Reconciles 900 60 abandoned (λ _ v. IsWaiting (uuid_str 7) v)
unfolding stale_ids is_stale status_eq
reconcile-stale_example = reconcile-stale 900 60 abandoned refl 7 refl

reconcile-orphan_example : Reconciles 900 60 orphaned (λ _ v. contains (uuid_str 7) (live v) ≡ true)
unfolding orphan_ids is_orphan status_eq
reconcile-orphan_example = reconcile-orphan 900 60 orphaned refl 7 refl

reconcile-live_example : Reconciles 900 60 claimed (λ _ v. contains (uuid_str 7) (live v) ≡ true)
unfolding live contains uuid_str text_eq
reconcile-live_example = reconcile-live 900 60 claimed refl (uuid_str 7) refl

reconcile-count_example :
    Reconciles 900 60 claimed (λ _ v. count (uuid_str 7) v.queue ≡ count (uuid_str 7) claimed.queue)
unfolding live contains uuid_str text_eq stale_ids is_stale status_eq
reconcile-count_example = reconcile-count 900 60 claimed (uuid_str 7) refl refl refl

reconcile-Parses_example : Reconciles 900 60 abandoned (λ _ v. All (Parses abandoned.jobs) v.queue)
reconcile-Parses_example = reconcile-Parses 900 60 abandoned refl tt (omega arith, tt)

process-acks_example : contains (codes "bad") claimed.processing ≡ false
unfolding process dispatch uuid_of ack service drop_processing text_eq remove_all contains uuid_str
process-acks_example = process-acks stub_executor (codes "bad") claimed claimed refl

finish_cancelled_example :
    (v : World) × (finish 7
        (codes "p")
        (record claimed { jobs = record row { status = cancelled } ∷ [] })
      ≡ (ok tt, v))
    × (find_row 7 v.jobs ≡ some (record row { status = cancelled }))
    × (hash_of (uuid_str 7) v
        ≡ some (record {
          status = status_value completed;
          updated_at = 100;
          ttl = some terminal_ttl_seconds;
        }))
finish_cancelled_example =
    finish_cancelled 7 (codes "p") (record row { status = cancelled })
      (record claimed { jobs = record row { status = cancelled } ∷ [] }) refl refl refl

process_unreadable_example :
    process stub_executor (uuid_str 7) (record claimed { jobs = bare ∷ [] })
    ≡ (raised (key_error (codes "learning_rate")), record claimed { jobs = bare ∷ [] })
unfolding row_to_job lookup_json or_raise raise ◌>>=◌
process_unreadable_example =
    process_unreadable stub_executor (uuid_str 7) 7 bare (key_error (codes "learning_rate"))
      (record claimed { jobs = bare ∷ [] }) refl (uuid_of-uuid_str 7 (omega arith)) refl refl

-- Seams that succeed at once.
abbrev seams : Seams
seams = record {
  ensure = λ model. pure (codes "models/m");
  download = λ path dir. pure (inside dir path);
  train = λ job model dataset out heartbeat. heartbeat;
  upload = λ id dir. pure (codes "checkpoints/c/");
  make_dir = λ prefix. pure prefix;
  remove_dir = λ dir. pure tt;
}
