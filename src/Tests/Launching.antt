-- ===== src/Tests/Launching.antt =====
-- The supervisor of two workers.
use krmed_cloud_services.Base.{
  text_eq, All, ◌≡◌, Text, List, [], ◌∷◌, codes, false, inr, refl, arith,
}
use krmed_cloud_services.Schema.Uuid.{strip, is_space}
use krmed_cloud_services.Paths.{split}
use krmed_cloud_services.Config.{
  Environ, Config, loaded, load, required_env, missing_keys, get, build, int_env, int_of, signed,
  decimal_from, decimal_step, gpu_ids_env, stripped,
}
use krmed_cloud_services.Config.Required.{AreGpuIds, Provides}
use krmed_cloud_services.Launcher.Started.{start, Starts, start-Starts}
use krmed_cloud_services.Launcher.{
  supervised, Supervisor, exit, signal, poll, join, on_events, on_event, leave, pass, find_child,
  launch, spawn,
}
use krmed_cloud_services.Launcher.AsOne.{IsAsOne, Reached, at_start, polled, Reached-IsAsOne}
use krmed_cloud_services.Launcher.Stopping.{Ends}
use krmed_cloud_services.Launcher.Ends.{supervise-Ends}

abbrev ids : List Text
ids = codes "0" ∷ codes "1" ∷ []

abbrev started : Supervisor
unfolding spawn
started = record { procs = spawn (λ n. 2) 0 ids; stopping = false }

abbrev one_left : Supervisor
unfolding poll
one_left = poll (exit 1 ∷ []) 0 started

one_left-Reached : Reached (λ n. 2) ids one_left
unfolding launch one_left
one_left-Reached = polled (exit 1 ∷ []) 0 (at_start refl)

Reached-IsAsOne_example : IsAsOne ids one_left
Reached-IsAsOne_example = Reached-IsAsOne (λ n. 2) ids one_left-Reached

supervise-Ends_example : Ends 20 ((signal ∷ []) ∷ []) one_left
unfolding one_left poll join on_events on_event leave pass find_child spawn
supervise-Ends_example =
    supervise-Ends (λ n. 2) ids 20 ((signal ∷ []) ∷ []) 1 one_left-Reached (inr refl) (omega arith)

abbrev environ : Environ
environ =
    (codes "DATABASE_URL", codes "d")
    ∷ (codes "REDIS_URL", codes "r")
    ∷ (codes "GARAGE_ENDPOINT", codes "e")
    ∷ (codes "GARAGE_ACCESS_KEY", codes "a")
    ∷ (codes "GARAGE_SECRET_KEY", codes "s")
    ∷ (codes "GARAGE_BUCKET", codes "b")
    ∷ (codes "CRUCIBLE_GPUS", codes "0, 1")
    ∷ []

start-Starts_example :
    (cfg : Config) × (load environ ≡ loaded cfg)
    × All (Provides environ) required_env
    × AreGpuIds cfg.gpu_ids
    × Starts cfg.gpu_ids (supervised started)
unfolding start load missing_keys get build int_env int_of strip is_space signed decimal_from
    decimal_step gpu_ids_env stripped split text_eq launch spawn started
start-Starts_example = start-Starts (λ n. 2) environ (supervised started) refl
