-- ===== src/Launcher.antt =====
-- ml-platform/worker/crucible_worker/launcher.py: one worker process for each GPU, and the loop that
-- supervises them. A signal, or the exit of a child, may come during each `join`.
pub mod AsOne
pub mod Waiting
pub mod Stopping
pub mod Ends
pub mod Started
use krmed_cloud_services.Base.{
  Text, ℕ, zero, suc, ◌+◌, Bool, true, false, Option, none, some, List, [], ◌∷◌, map, ◌==◌,
  is_empty, if◌then◌else◌,
}

-- A child at its work; one that was asked to end, by the number of joins that it still lives; and
-- one that has exited.
pub data Life : Type 0 where
  working : Life
  ending : ℕ → Life
  exited : Life

-- A process by its id and its GPU. It `needs` so many joins to end its current job once asked.
pub record Child : Type 0 where
  pub pid : ℕ
  pub gpu : Text
  pub needs : ℕ
  pub life : Life

-- The list `procs` and the event `stopping`.
pub record Supervisor : Type 0 where
  pub procs : List Child
  pub stopping : Bool

-- What may come while the supervisor waits: a signal to it, or a child that ends by itself.
pub data Event : Type 0 where
  signal : Event
  exit : ℕ → Event

abbrev pub is_alive : Life → Bool
is_alive working = true
is_alive (ending n) = true
is_alive exited = false

abbrev ask : Life → ℕ → Life
ask working needs = ending needs
ask (ending n) needs = ending n
ask exited needs = exited

abbrev age : Life → Life
age working = working
age (ending zero) = exited
age (ending (suc n)) = ending n
age exited = exited

-- `proc.terminate()` of a process that is alive
unfoldable pub terminate : Child → Child
terminate c = record c { life = ask c.life c.needs }

-- The time of one `join` passes for a child.
unfoldable pub pass : Child → Child
pass c = record c { life = age c.life }

unfoldable pub leave : ℕ → Child → Child
leave pid c = if c.pid == pid then record c { life = exited } else c

-- `_terminate_remaining`, and the loop of `handle`
unfoldable pub terminate_all : List Child → List Child
unfolding terminate
terminate_all procs = map terminate procs

-- `handle`
unfoldable pub on_event : Event → Supervisor → Supervisor
unfolding terminate_all leave
on_event signal s = record s { procs = terminate_all s.procs; stopping = true }
on_event (exit pid) s = record s { procs = map (leave pid) s.procs }

unfoldable pub on_events : List Event → Supervisor → Supervisor
on_events [] s = s
on_events (e ∷ es) s = on_events es (on_event e s)

-- `proc.join(timeout=1.0)`
unfoldable pub join : List Event → Supervisor → Supervisor
unfolding pass
join es s = on_events es (record s { procs = map pass s.procs })

unfoldable pub find_child : ℕ → List Child → Option Child
find_child pid [] = none
find_child pid (c ∷ cs) = if c.pid == pid then some c else find_child pid cs

-- `procs.remove(proc)`
unfoldable pub remove_child : ℕ → List Child → List Child
remove_child pid [] = []
remove_child pid (c ∷ cs) = if c.pid == pid then cs else c ∷ remove_child pid cs

-- What the loop does once a child has exited.
unfoldable pub reap : ℕ → Supervisor → Supervisor
unfolding remove_child terminate_all
reap pid s =
    let rest = remove_child pid s.procs in
    if s.stopping
    then record s { procs = rest }
    else record { procs = terminate_all rest; stopping = true }

abbrev checked : Option Child → ℕ → Supervisor → Supervisor
checked none pid s = s
checked (some c) pid s = if is_alive c.life then s else reap pid s

-- The body of the `for` loop.
unfoldable pub poll : List Event → ℕ → Supervisor → Supervisor
poll es pid s = let t = join es s in checked (find_child pid t.procs) pid t

abbrev pub pids : List Child → List ℕ
pids [] = []
pids (c ∷ cs) = c.pid ∷ pids cs

-- The events of each join to come; past the end nothing comes.
abbrev pub Schedule : Type 0
Schedule = List (List Event)

-- One pass over `list(procs)`.
unfoldable pub round : List ℕ → Schedule → Supervisor → Supervisor × Schedule
round [] schedule s = (s, schedule)
round (p ∷ ps) [] s = round ps [] (poll [] p s)
round (p ∷ ps) (es ∷ schedule) s = round ps schedule (poll es p s)

-- `_supervise`, on fuel for its passes; `none` means that the fuel ran out.
unfoldable pub supervise : ℕ → Schedule → Supervisor → Option Supervisor
supervise zero schedule s = none
supervise (suc fuel) schedule s =
    let rest = (let (t, later) = round (pids s.procs) schedule s in supervise fuel later t) in
    if is_empty s.procs then some s else rest

-- The processes that `run` starts, in order; `needs` is given for each process id.
unfoldable pub spawn : (ℕ → ℕ) → ℕ → List Text → List Child
spawn needs pid [] = []
spawn needs pid (gpu ∷ gpus) =
    record { pid = pid; gpu = gpu; needs = needs pid; life = working } ∷ spawn needs (pid + 1) gpus

-- What `run` does: it runs the worker in its own process, pinned to the GPU, or it supervises.
pub data Launch : Type 0 where
  inline : Text → Launch
  supervised : Supervisor → Launch

unfoldable pub launch : (ℕ → ℕ) → List Text → Launch
unfolding spawn
launch needs (gpu ∷ []) = inline gpu
launch needs gpus = supervised (record { procs = spawn needs 0 gpus; stopping = false })
