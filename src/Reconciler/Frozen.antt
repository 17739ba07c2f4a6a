-- ===== src/Reconciler/Frozen.antt =====
-- A reconciliation changes the table of jobs only as `Repository.Frozen` allows.
use krmed_cloud_services.Base.{Text, ℕ, refl}
use krmed_cloud_services.Effects.Rules.{Keeps}
use krmed_cloud_services.Effects.Closed.{Keeps-Closed}
use krmed_cloud_services.World.{World, service, write}
use krmed_cloud_services.Queue.{push_back, drop_processing}
use krmed_cloud_services.Repository.Table.{same_jobs-OnJobs}
use krmed_cloud_services.Repository.Frozen.{Evolves, Evolves-order, Evolves-TableLaw}
use krmed_cloud_services.Processor.Tables.{OnJobs-CallsGood}
use krmed_cloud_services.Reconciler.{reconcile}
use krmed_cloud_services.Reconciler.Good.{reconcile_good}

requeueing-Evolves : (t : Text) → Keeps Evolves (service (write (push_back t)))
unfolding push_back drop_processing
requeueing-Evolves t = same_jobs-OnJobs Evolves-TableLaw (write (push_back t)) (λ w. refl)

-- Whatever fails and whatever the backend and other workers do, a reconciliation loses no row, keeps what each row was
-- created with, and changes no row whose status is terminal.
pub reconcile-Evolves : (age grace : ℕ) (w : World) → Evolves w (reconcile age grace w).1
reconcile-Evolves age grace w =
    (reconcile_good (λ A m. Keeps Evolves m) (Keeps-Closed Evolves-order)
        (OnJobs-CallsGood Evolves-TableLaw) requeueing-Evolves age grace).at
      w
