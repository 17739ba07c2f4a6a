-- ===== src/Launcher/AsOne.antt =====
-- The processes stop as one: whatever comes, none is left to work once another one has ended.
use krmed_cloud_services.Base.{
  Text, ℕ, ◌+◌, ◌≡◌, refl, ap, subst, ◌∙◌, Bool, true, false, List, [], ◌∷◌, map, All, arith,
  Option, none, some, Bool-cases, inl, inr, ◌==◌,
}
use krmed_cloud_services.Launcher.{
  Life, working, Child, Supervisor, Event, signal, exit, is_alive, terminate, pass, leave,
  terminate_all, on_event, on_events, join, remove_child, reap, poll, checked, Schedule, round,
  spawn, supervised, launch,
}

abbrev pub is_working : Life → Bool
is_working working = true
is_working _ = false

-- Every process was asked to end or has exited.
abbrev pub AllAsked : List Child → Type 0
AllAsked procs = All (λ c. is_working c.life ≡ false) procs

abbrev pub gpus : List Child → List Text
gpus [] = []
gpus (c ∷ cs) = c.gpu ∷ gpus cs

-- Nobody has been stopped yet, and every process that was started is still watched; or all that is
-- left was asked to end.
pub record IsAsOne (started : List Text) (s : Supervisor) : Type 0 where
  pub all_there : s.stopping ≡ false → gpus s.procs ≡ started
  pub all_asked : s.stopping ≡ true → AllAsked s.procs

terminate_all-AllAsked : (l : List Child) → AllAsked (terminate_all l)
unfolding terminate_all terminate
terminate_all-AllAsked [] = tt
terminate_all-AllAsked (c ∷ cs) = (ground arith, terminate_all-AllAsked cs)

pass-AllAsked : (l : List Child) → AllAsked l → AllAsked (map pass l)
unfolding pass
pass-AllAsked [] h = tt
pass-AllAsked (c ∷ cs) h = (ground (arith, h.0), pass-AllAsked cs h.1)

leave-AllAsked : (pid : ℕ) (l : List Child) → AllAsked l → AllAsked (map (leave pid) l)
unfolding leave
leave-AllAsked pid [] h = tt
leave-AllAsked pid (c ∷ cs) h = (ground (arith, h.0), leave-AllAsked pid cs h.1)

remove_child-AllAsked : (pid : ℕ) (l : List Child) → AllAsked l → AllAsked (remove_child pid l)
unfolding remove_child
remove_child-AllAsked pid [] h = tt
remove_child-AllAsked pid (c ∷ cs) h = elim (Bool-cases (c.pid == pid)) [
  | inl same ↦ rw same h.1
  | inr other ↦ rw other (h.0, remove_child-AllAsked pid cs h.1)
]

gpus-terminate_all : (l : List Child) → gpus (terminate_all l) ≡ gpus l
unfolding terminate_all terminate
gpus-terminate_all [] = refl
gpus-terminate_all (c ∷ cs) = ap (λ l. c.gpu ∷ l) (gpus-terminate_all cs)

gpus-pass : (l : List Child) → gpus (map pass l) ≡ gpus l
unfolding pass
gpus-pass [] = refl
gpus-pass (c ∷ cs) = ap (λ l. c.gpu ∷ l) (gpus-pass cs)

gpus-leave : (pid : ℕ) (l : List Child) → gpus (map (leave pid) l) ≡ gpus l
unfolding leave
gpus-leave pid [] = refl
gpus-leave pid (c ∷ cs) = ground (arith, gpus-leave pid cs)

module _ (started : List Text) where
  on_event-IsAsOne :
      (e : Event) (s : Supervisor) → IsAsOne started s → IsAsOne started (on_event e s)
  unfolding on_event
  on_event-IsAsOne signal s h = record {
    all_there = λ going. cc;
    all_asked = λ _. terminate_all-AllAsked s.procs;
  }
  on_event-IsAsOne (exit pid) s h = record {
    all_there = λ going. gpus-leave pid s.procs ∙ h.all_there going;
    all_asked = λ asked. leave-AllAsked pid s.procs (h.all_asked asked);
  }

  on_events-IsAsOne :
      (es : List Event) (s : Supervisor) → IsAsOne started s → IsAsOne started (on_events es s)
  unfolding on_events
  on_events-IsAsOne [] s h = h
  on_events-IsAsOne (e ∷ es) s h = on_events-IsAsOne es (on_event e s) (on_event-IsAsOne e s h)

  join-IsAsOne :
      (es : List Event) (s : Supervisor) → IsAsOne started s → IsAsOne started (join es s)
  unfolding join
  join-IsAsOne es s h = on_events-IsAsOne es _ (record {
    all_there = λ going. gpus-pass s.procs ∙ h.all_there going;
    all_asked = λ asked. pass-AllAsked s.procs (h.all_asked asked);
  })

  reap-IsAsOne : (pid : ℕ) (s : Supervisor) → IsAsOne started s → IsAsOne started (reap pid s)
  unfolding reap
  reap-IsAsOne pid s h = elim (Bool-cases s.stopping) [
    | inl asked ↦ rw asked (record {
      all_there = λ going. absurd (ground arith);
      all_asked = λ _. remove_child-AllAsked pid s.procs (h.all_asked asked);
    })
    | inr going ↦ rw going (record {
      all_there = λ gone. absurd (ground arith);
      all_asked = λ _. terminate_all-AllAsked (remove_child pid s.procs);
    })
  ]

  checked-IsAsOne :
      (o : Option Child) (pid : ℕ) (s : Supervisor)
      → IsAsOne started s
      → IsAsOne started (checked o pid s)
  checked-IsAsOne none pid s h = h
  checked-IsAsOne (some c) pid s h = elim (Bool-cases (is_alive c.life)) [
    | inl alive ↦ rw alive h
    | inr dead ↦ rw dead (reap-IsAsOne pid s h)
  ]

  pub poll-IsAsOne :
      (es : List Event) (pid : ℕ) (s : Supervisor)
      → IsAsOne started s
      → IsAsOne started (poll es pid s)
  unfolding poll
  poll-IsAsOne es pid s h = checked-IsAsOne _ pid _ (join-IsAsOne es s h)

-- The supervisor's states: the first, and what each poll of any process leads to, whatever comes.
pub data Reached (needs : ℕ → ℕ) (ids : List Text) : Supervisor → Type 0 where
  at_start : {s : Supervisor} → launch needs ids ≡ supervised s → Reached needs ids s
  polled :
      {s : Supervisor} (es : List Event) (pid : ℕ)
      → Reached needs ids s
      → Reached needs ids (poll es pid s)

-- Every state in the middle of a pass is reached.
pub round-Reached :
    (needs : ℕ → ℕ) (ids : List Text) (ps : List ℕ) (schedule : Schedule) (s : Supervisor)
    → Reached needs ids s
    → Reached needs ids (round ps schedule s).0
unfolding round
round-Reached needs ids [] schedule s h = h
round-Reached needs ids (p ∷ ps) [] s h = round-Reached needs ids ps [] _ (polled [] p h)
round-Reached needs ids (p ∷ ps) (es ∷ rest) s h = round-Reached needs ids ps rest _ (polled es p h)

pub gpus-spawn : (needs : ℕ → ℕ) (n : ℕ) (ids : List Text) → gpus (spawn needs n ids) ≡ ids
unfolding spawn
gpus-spawn needs n [] = refl
gpus-spawn needs n (g ∷ gs) = ap (λ l. g ∷ l) (gpus-spawn needs (n + 1) gs)

fresh-IsAsOne :
    (needs : ℕ → ℕ) (ids : List Text)
    → IsAsOne ids (record { procs = spawn needs 0 ids; stopping = false })
fresh-IsAsOne needs ids = record {
  all_there = λ _. gpus-spawn needs 0 ids;
  all_asked = λ asked. cc;
}

launch-IsAsOne :
    (needs : ℕ → ℕ) (ids : List Text) (s : Supervisor)
    → launch needs ids ≡ supervised s
    → IsAsOne ids s
unfolding launch
launch-IsAsOne needs [] s e =
    let same : record { procs = spawn needs 0 []; stopping = false } ≡ s = cc in
    subst (IsAsOne []) same (fresh-IsAsOne needs [])
launch-IsAsOne needs (g ∷ []) s e = cc
launch-IsAsOne needs (g ∷ k ∷ ids) s e =
    let same : record { procs = spawn needs 0 (g ∷ k ∷ ids); stopping = false } ≡ s = cc in
    subst (IsAsOne (g ∷ k ∷ ids)) same (fresh-IsAsOne needs (g ∷ k ∷ ids))

-- In every state that the supervisor reaches, whatever signals and exits come and whichever process
-- it polls: as long as it is not stopping, it watches a process for each GPU of the configuration, in
-- order; when it is stopping, every process that it still watches was asked to end or has exited.
pub Reached-IsAsOne :
    (needs : ℕ → ℕ) (ids : List Text) {s : Supervisor} → Reached needs ids s → IsAsOne ids s
Reached-IsAsOne needs ids (at_start e) = launch-IsAsOne needs ids _ e
Reached-IsAsOne needs ids (polled es pid r) =
    poll-IsAsOne ids es pid _ (Reached-IsAsOne needs ids r)
