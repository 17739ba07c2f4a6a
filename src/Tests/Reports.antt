-- ===== src/Tests/Reports.antt =====
-- The report of a processed job at a concrete world.
use krmed_cloud_services.Base.{◌≡◌, refl, arith, text_eq, contains}
use krmed_cloud_services.Effects.{ok, pure, raise, or_raise, ◌>>=◌, ◌>>◌}
use krmed_cloud_services.Schema.{running, is_terminal, status_eq}
use krmed_cloud_services.Schema.Uuid.{uuid_str}
use krmed_cloud_services.Schema.Uuid.RoundTrip.{uuid_of-uuid_str}
use krmed_cloud_services.World.{World, service, update_jobs}
use krmed_cloud_services.Paths.{
  suffix, suffix_of_name, from_last_dot, or_empty, name_of, last_part, is_dropped, split, lower,
  lower_char, lstrip,
}
use krmed_cloud_services.Validation.{validate_dataset_format, judge, detect_format, bare_suffix}
use krmed_cloud_services.Guardrail.{check_model_fits, misfit, is_unsupported, too_large}
use krmed_cloud_services.Status.{publish, put_status}
use krmed_cloud_services.Repository.{
  get_job, to_job, row_to_job, lookup_json, get_model_meta, select_model, to_meta, heartbeat,
  update,
}
use krmed_cloud_services.Executor.{stub_executor, checkpoint_prefix}
use krmed_cloud_services.Processor.{process, preflight, beat}
use krmed_cloud_services.Processor.Reports.{work, announced, Reported}
use krmed_cloud_services.Processor.Outcome.{process_reports}
use krmed_cloud_services.Tests.Fixtures.{row, claimed, job}

abbrev worked : World
worked = (work stub_executor job (announced 7 claimed)).1

process_reports_example :
    (u : World) × (process stub_executor (uuid_str 7) claimed ≡ (ok tt, u))
    × Reported
        (uuid_str 7)
        7
        (record row { status = running; updated_at = 100 })
        (ok (record { checkpoint_path = checkpoint_prefix job }))
        worked
        u
unfolding get_job to_job row_to_job lookup_json service or_raise pure raise ◌>>=◌ ◌>>◌ text_eq
    contains is_terminal preflight validate_dataset_format judge detect_format bare_suffix suffix
    suffix_of_name from_last_dot or_empty name_of last_part is_dropped split lower lower_char lstrip
    get_model_meta select_model to_meta check_model_fits misfit is_unsupported too_large
    stub_executor beat heartbeat publish put_status update update_jobs status_eq
process_reports_example =
    process_reports stub_executor (uuid_str 7) 7 job
      (record row { status = running; updated_at = 100 })
      (ok (record { checkpoint_path = checkpoint_prefix job })) claimed worked refl
      (uuid_of-uuid_str 7 (omega arith)) refl refl refl refl refl refl refl
