-- ===== src/Processor/Tables.antt =====
-- What the table of jobs goes through while a job is processed: the calls of the processor keep every
-- relation that allows the updates.
use krmed_cloud_services.Base.{refl, List}
use krmed_cloud_services.Effects.Rules.{Keeps}
use krmed_cloud_services.World.{JobRow, M, read, write}
use krmed_cloud_services.Queue.{drop_processing}
use krmed_cloud_services.Status.{put_status}
use krmed_cloud_services.Repository.Table.{TableLaw, OnJobs, same_jobs-OnJobs, moving-OnJobs}
use krmed_cloud_services.Processor.Good.{CallsGood}

pub OnJobs-CallsGood :
    {R : List JobRow → List JobRow → Type 0}
    → TableLaw R
    → CallsGood (λ A (m : M A). Keeps (OnJobs R) m)
unfolding drop_processing put_status
OnJobs-CallsGood law = record {
  reading = λ A f. same_jobs-OnJobs law (read f) (λ w. refl);
  moving = moving-OnJobs law;
  publishing = λ id status terminal.
      same_jobs-OnJobs law (write (put_status id status terminal)) (λ w. refl);
  acking = λ t. same_jobs-OnJobs law (write (drop_processing t)) (λ w. refl);
}
