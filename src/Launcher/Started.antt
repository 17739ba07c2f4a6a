-- ===== src/Launcher/Started.antt =====
-- ml-platform/worker/crucible_worker/main.py: `main`, from the environment to the worker processes.
use krmed_cloud_services.Base.{
  Text, ℕ, suc, ◌+◌, ◌≤◌, ◌≡◌, refl, ap, subst, false, List, [], ◌∷◌, length, is_empty, All, arith,
}
use krmed_cloud_services.Config.{
  Outcome, loaded, config_error, ◌>>=◌, Environ, required_env, Config, load,
}
use krmed_cloud_services.Config.Required.{>>=-eq-loaded, AreGpuIds, Provides, load-required}
use krmed_cloud_services.Launcher.{Launch, inline, supervised, spawn, launch}
use krmed_cloud_services.Launcher.AsOne.{gpus, gpus-spawn}

-- `main`: the configuration is loaded, and `launcher.run` is given it.
unfoldable pub start : (ℕ → ℕ) → Environ → Outcome Launch
start needs env = load env >>= λ cfg. loaded (launch needs cfg.gpu_ids)

-- One worker in this process, for the only GPU; or two processes at least, one for each GPU.
abbrev pub Starts : List Text → Launch → Type 0
Starts ids (inline gpu) = ids ≡ gpu ∷ []
Starts ids (supervised s) = (2 ≤ length s.procs) × (gpus s.procs ≡ ids) × (s.stopping ≡ false)

length-spawn : (needs : ℕ → ℕ) (n : ℕ) (ids : List Text) → length (spawn needs n ids) ≡ length ids
unfolding spawn
length-spawn needs n [] = refl
length-spawn needs n (g ∷ gs) = ap suc (length-spawn needs (n + 1) gs)

launch-Starts :
    (needs : ℕ → ℕ) (ids : List Text) → is_empty ids ≡ false → Starts ids (launch needs ids)
unfolding launch
launch-Starts needs [] some_id = cc
launch-Starts needs (g ∷ []) some_id = refl
launch-Starts needs (g ∷ k ∷ ids) some_id =
    (omega (arith, length-spawn needs 0 (g ∷ k ∷ ids)), gpus-spawn needs 0 (g ∷ k ∷ ids), refl)

-- When `main` gets as far as starting workers, every required variable is set and not empty, no GPU
-- id is blank, and it either runs one worker in its own process, for the only GPU, or supervises two
-- processes at least, one for each GPU of the configuration, in order: never none.
pub start-Starts :
    (needs : ℕ → ℕ) (env : Environ) (l : Launch)
    → start needs env ≡ loaded l
    → (cfg : Config) × (load env ≡ loaded cfg)
      × All (Provides env) required_env
      × AreGpuIds cfg.gpu_ids
      × Starts cfg.gpu_ids l
unfolding start
start-Starts needs env l h =
    let (cfg, read, launched) = >>=-eq-loaded (load env) _ h in
    let (provided, ids) = load-required env cfg read in
    (
      cfg,
      read,
      provided,
      ids,
      subst (Starts cfg.gpu_ids) (ap launch_of launched) (launch-Starts needs cfg.gpu_ids ids.0),
    )
  where
    launch_of : Outcome Launch → Launch
    launch_of (loaded m) = m
    launch_of (config_error e) = l
