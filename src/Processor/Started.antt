-- ===== src/Processor/Started.antt =====
-- The gates and the heartbeat in a world without faults: a job that has left the queue stays so.
use krmed_cloud_services.Base.{
  Text, ℕ, ◌≡◌, refl, ap, sym, subst, contains, ◌∙◌, Bool, true, not, Option, none, some, arith,
}
use krmed_cloud_services.Effects.{Exn}
use krmed_cloud_services.Effects.Rules.{Triple, Triple-if, Impossible, After}
use krmed_cloud_services.Effects.Steady.{
  Steady, Steady-pure, Steady-raise, Steady-or_raise, Steady-bind, Steady-then,
}
use krmed_cloud_services.Schema.{Job, queued, running, status_eq, is_terminal, Message}
use krmed_cloud_services.World.{World, JobRow, service, write}
use krmed_cloud_services.World.Calm.{IsCalm, service_calm}
use krmed_cloud_services.Status.{publish, put_status}
use krmed_cloud_services.Guardrail.{check_model_fits, misfit, raise_if}
use krmed_cloud_services.Validation.{
  validate_dataset_format, judge, detect_format, supported_formats,
}
use krmed_cloud_services.Repository.{
  find_row, get_model_meta, heartbeat, mark_running, mark_completed, mark_failed, update,
  set_running, set_seen, set_completed, set_failed,
}
use krmed_cloud_services.Repository.Rows.{updated, find_row-update_jobs}
use krmed_cloud_services.Processor.{beat, preflight}

abbrev pub not_queued : Option JobRow → Bool
not_queued none = true
not_queued (some r) = not (status_eq r.status queued)

abbrev pub is_settled : Option JobRow → Bool
is_settled none = true
is_settled (some r) = is_terminal r.status

-- No faults to come, and the job is not queued (any more).
pub record IsStarted (id : ℕ) (w : World) : Type 0 where
  pub calm : IsCalm w
  pub started : not_queued (find_row id w.jobs) ≡ true

-- No faults to come, and the job is in a terminal status.
pub record IsSettled (id : ℕ) (w : World) : Type 0 where
  pub calm : IsCalm w
  pub settled : is_settled (find_row id w.jobs) ≡ true

-- A call without faults leaves what its operation leaves.
pub call :
    {A : Type 0} {P Q : World → Type 0} {E : Exn → World → Type 0} {K : World → Type 0}
    (op : World → A × World)
    → ((w : World) → P w → IsCalm w)
    → ((w : World) → P w → Q (op w).1)
    → Triple P (service op) (λ _. Q) E K
call {Q = Q} {E = E} {K = K} op calm change = record {
  at = λ w p. subst (After (λ _. Q) E K) (sym (service_calm op w (calm w p))) (change w p);
}

module _ (id : ℕ) where
  abbrev started_calm : (w : World) → IsStarted id w → IsCalm w
  started_calm w h = h.calm

  set_running-started :
      (o : Option JobRow) (now : ℕ) → not_queued (updated queued (set_running now) o) ≡ true
  unfolding status_eq
  set_running-started o now = ground arith

  set_seen-started :
      (o : Option JobRow) (now : ℕ)
      → not_queued o ≡ true
      → not_queued (updated running (set_seen now) o) ≡ true
  unfolding status_eq
  set_seen-started o now h = ground arith

  set_completed-settled :
      (o : Option JobRow) (path : Text) (now : ℕ)
      → not_queued o ≡ true
      → is_settled (updated running (set_completed path now) o) ≡ true
  unfolding status_eq is_terminal
  set_completed-settled o path now h = ground arith

  set_failed-settled :
      (o : Option JobRow) (m : Message) (now : ℕ)
      → not_queued o ≡ true
      → is_settled (updated running (set_failed m now) o) ≡ true
  unfolding status_eq is_terminal
  set_failed-settled o m now h = ground arith

  pub mark_running-starts :
      {E : Exn → World → Type 0} {K : World → Type 0}
      → Triple IsCalm (mark_running id) (λ _. IsStarted id) E K
  unfolding mark_running update
  mark_running-starts =
      call (write (update id queued set_running)) (λ w h. h)
        (λ w h. record {
          calm = h;
          started =
              ap not_queued (find_row-update_jobs id queued (set_running w.now) w.jobs (λ r. refl))
              ∙ set_running-started (find_row id w.jobs) w.now;
        })

  heartbeat-IsStarted : Steady (IsStarted id) (heartbeat id)
  unfolding heartbeat update
  heartbeat-IsStarted = call (write (update id running set_seen)) started_calm (λ w h. record {
    calm = h.calm;
    started =
        ap not_queued (find_row-update_jobs id running (set_seen w.now) w.jobs (λ r. refl))
        ∙ set_seen-started (find_row id w.jobs) w.now h.started;
  })

  pub publish-IsStarted :
      (t status : Text) (terminal : Bool) → Steady (IsStarted id) (publish t status terminal)
  unfolding publish put_status
  publish-IsStarted t status terminal =
      call (write (put_status t status terminal)) started_calm
        (λ w h. record { calm = h.calm; started = h.started })

  pub publish-IsSettled :
      {E : Exn → World → Type 0} (t status : Text) (terminal : Bool)
      → Triple (IsSettled id) (publish t status terminal) (λ _. IsSettled id) E Impossible
  unfolding publish put_status
  publish-IsSettled t status terminal =
      call (write (put_status t status terminal)) (λ w h. h.calm)
        (λ w h. record { calm = h.calm; settled = h.settled })

  pub mark_completed-settles :
      {E : Exn → World → Type 0} (path : Text)
      → Triple (IsStarted id) (mark_completed id path) (λ _. IsSettled id) E Impossible
  unfolding mark_completed update
  mark_completed-settles path =
      call (write (update id running (set_completed path))) started_calm (λ w h. record {
        calm = h.calm;
        settled =
            ap is_settled
              (find_row-update_jobs id running (set_completed path w.now) w.jobs (λ r. refl))
            ∙ set_completed-settled (find_row id w.jobs) path w.now h.started;
      })

  pub mark_failed-settles :
      {E : Exn → World → Type 0} (m : Message)
      → Triple (IsStarted id) (mark_failed id m) (λ _. IsSettled id) E Impossible
  unfolding mark_failed update
  mark_failed-settles m = call (write (update id running (set_failed m))) started_calm (λ w h.
      record {
        calm = h.calm;
        settled =
            ap is_settled (find_row-update_jobs id running (set_failed m w.now) w.jobs (λ r. refl))
            ∙ set_failed-settled (find_row id w.jobs) m w.now h.started;
      })

  pub beat-IsStarted : Steady (IsStarted id) (beat id)
  unfolding beat
  beat-IsStarted = Steady-then _ _ heartbeat-IsStarted (publish-IsStarted _ _ _)

  judge-IsStarted : (path : Text) (fmt : Option Text) → Steady (IsStarted id) (judge path fmt)
  unfolding judge
  judge-IsStarted path none = Steady-pure none
  judge-IsStarted path (some fmt) =
      Triple-if (contains fmt supported_formats) _ _ (Steady-pure (some fmt)) (Steady-raise _)

  raise_if-IsStarted : (e : Option Exn) → Steady (IsStarted id) (raise_if e)
  raise_if-IsStarted none = Steady-pure tt
  raise_if-IsStarted (some e) = Steady-raise e

  validate-IsStarted : (path : Text) → Steady (IsStarted id) (validate_dataset_format path)
  unfolding validate_dataset_format
  validate-IsStarted path = judge-IsStarted path (detect_format path)

  fits-IsStarted :
      (n : Option ℕ) (hint : Option Text) → Steady (IsStarted id) (check_model_fits n hint)
  unfolding check_model_fits
  fits-IsStarted n hint = raise_if-IsStarted (misfit n hint)

  model-IsStarted : (repo : Text) → Steady (IsStarted id) (get_model_meta repo)
  unfolding get_model_meta
  model-IsStarted repo = call _ started_calm (λ w h. h)

  pub preflight-IsStarted : (job : Job) → Steady (IsStarted id) (preflight job)
  unfolding preflight
  preflight-IsStarted job = Steady-then _ _ (validate-IsStarted job.dataset_path) (
      Steady-bind _ _ (model-IsStarted job.base_model) (λ found.
        Steady-bind _ _ (Steady-or_raise found _)
          (λ model. Steady-then _ _ (fits-IsStarted _ _) (Steady-pure model))))
