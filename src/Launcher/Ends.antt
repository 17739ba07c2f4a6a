-- ===== src/Launcher/Ends.antt =====
-- One exit, or one signal, ends the whole.
use krmed_cloud_services.Base.{
  Text, ℕ, zero, suc, ◌+◌, ◌<◌, ◌≡◌, ◌⊎◌, refl, sym, subst, Bool, true, false, not, ◌||◌, List, [],
  ◌∷◌, map, arith, some, Option-cases, Bool-cases, inl, inr, ◌==◌, ==_iff, if◌then◌else◌, is_empty,
}
use krmed_cloud_services.Launcher.{
  Child, Supervisor, Event, signal, exit, is_alive, terminate, pass, leave, terminate_all, on_event,
  on_events, join, find_child, reap, poll, checked, pids, Schedule, round,
}
use krmed_cloud_services.Launcher.AsOne.{Reached, Reached-IsAsOne, round-Reached}
use krmed_cloud_services.Launcher.Waiting.{left}
use krmed_cloud_services.Launcher.Stopping.{
  Ends, IsStopping-Ends, poll-stopping, round-left, Ends-now, Ends-later,
}

-- The process of this id has exited and is still watched.
abbrev pub has_exited : ℕ → List Child → Bool
has_exited pid [] = false
has_exited pid (c ∷ cs) = if c.pid == pid then not (is_alive c.life) else has_exited pid cs

abbrev among : ℕ → List ℕ → Bool
among p [] = false
among p (q ∷ qs) = q == p || among p qs

has_exited-pass :
    (p : ℕ) (l : List Child) → has_exited p l ≡ true → has_exited p (map pass l) ≡ true
unfolding pass
has_exited-pass p [] h = h
has_exited-pass p (c ∷ cs) h = ground (arith, has_exited-pass p cs)

has_exited-leave :
    (p q : ℕ) (l : List Child) → has_exited p l ≡ true → has_exited p (map (leave q) l) ≡ true
unfolding leave
has_exited-leave p q [] h = h
has_exited-leave p q (c ∷ cs) h = ground (arith, has_exited-leave p q cs)

has_exited-terminate_all :
    (p : ℕ) (l : List Child) → has_exited p l ≡ true → has_exited p (terminate_all l) ≡ true
unfolding terminate_all terminate
has_exited-terminate_all p [] h = h
has_exited-terminate_all p (c ∷ cs) h = ground (arith, has_exited-terminate_all p cs)

has_exited-on_events :
    (p : ℕ) (es : List Event) (s : Supervisor)
    → has_exited p s.procs ≡ true
    → has_exited p (on_events es s).procs ≡ true
unfolding on_events on_event
has_exited-on_events p [] s h = h
has_exited-on_events p (signal ∷ es) s h =
    has_exited-on_events p es _ (has_exited-terminate_all p s.procs h)
has_exited-on_events p (exit q ∷ es) s h =
    has_exited-on_events p es _ (has_exited-leave p q s.procs h)

has_exited-join :
    (p : ℕ) (es : List Event) (s : Supervisor)
    → has_exited p s.procs ≡ true
    → has_exited p (join es s).procs ≡ true
unfolding join
has_exited-join p es s h = has_exited-on_events p es _ (has_exited-pass p s.procs h)

found_exited :
    (p : ℕ) (l : List Child)
    → has_exited p l ≡ true
    → (c : Child) × (find_child p l ≡ some c) × (is_alive c.life ≡ false)
unfolding find_child
found_exited p [] h = cc
found_exited p (c ∷ cs) h = elim (Bool-cases (c.pid == p)) [
  | inl same ↦ (c, rw same refl, ground arith)
  | inr other ↦ let (d, found, dead) = found_exited p cs (ground arith) in (d, rw other found, dead)
]

reap-stopping : (p : ℕ) (s : Supervisor) → (reap p s).stopping ≡ true
unfolding reap
reap-stopping p s = ground arith

poll-own :
    (es : List Event) (p : ℕ) (s : Supervisor)
    → has_exited p s.procs ≡ true
    → (poll es p s).stopping ≡ true
unfolding poll
poll-own es p s h =
    let (c, found, dead) = found_exited p (join es s).procs (has_exited-join p es s h) in
    rw (found, checked, dead) (reap-stopping p (join es s))

poll-other :
    (es : List Event) (q p : ℕ) (s : Supervisor)
    → has_exited p s.procs ≡ true
    → ((poll es q s).stopping ≡ true) ⊎ (has_exited p (poll es q s).procs ≡ true)
unfolding poll
poll-other es q p s h = elim (Option-cases (find_child q (join es s).procs)) [
  | inl gone ↦ inr (rw (gone, checked) (has_exited-join p es s h))
  | inr (c, found) ↦ elim (Bool-cases (is_alive c.life)) [
    | inl alive ↦ inr (rw (found, checked, alive) (has_exited-join p es s h))
    | inr dead ↦ inl (rw (found, checked, dead) (reap-stopping q (join es s)))
  ]
]

round-stopping_kept :
    (ps : List ℕ) (schedule : Schedule) (s : Supervisor)
    → s.stopping ≡ true
    → (round ps schedule s).0.stopping ≡ true
unfolding round
round-stopping_kept [] schedule s h = h
round-stopping_kept (p ∷ ps) [] s h = round-stopping_kept ps [] _ (poll-stopping [] p s h)
round-stopping_kept (p ∷ ps) (es ∷ later) s h =
    round-stopping_kept ps later _ (poll-stopping es p s h)

after_poll :
    (q : ℕ) (ps : List ℕ) (es : List Event) (later : Schedule) (p : ℕ) (s : Supervisor)
    → (among p ps ≡ true
        → has_exited p (poll es q s).procs ≡ true
        → (round ps later (poll es q s)).0.stopping ≡ true)
    → among p (q ∷ ps) ≡ true
    → has_exited p s.procs ≡ true
    → (round ps later (poll es q s)).0.stopping ≡ true
after_poll q ps es later p s rest here h = elim (Bool-cases (q == p)) [
  | inl same ↦
      round-stopping_kept ps later _
        (subst (λ n. (poll es n s).stopping ≡ true) (sym ((==_iff q p).0 same)) (poll-own es p s h))
  | inr other ↦ elim (poll-other es q p s h) [
    | inl stopping ↦ round-stopping_kept ps later _ stopping
    | inr still ↦ rest (ground arith) still
  ]
]

-- After one pass over the processes, an exit is seen.
round-stopping :
    (ps : List ℕ) (schedule : Schedule) (p : ℕ) (s : Supervisor)
    → among p ps ≡ true
    → has_exited p s.procs ≡ true
    → (round ps schedule s).0.stopping ≡ true
unfolding round
round-stopping [] schedule p s here h = cc
round-stopping (q ∷ ps) [] p s here h =
    after_poll q ps [] [] p s (round-stopping ps [] p (poll [] q s)) here h
round-stopping (q ∷ ps) (es ∷ later) p s here h =
    after_poll q ps es later p s (round-stopping ps later p (poll es q s)) here h

has_exited-among : (p : ℕ) (l : List Child) → has_exited p l ≡ true → among p (pids l) ≡ true
has_exited-among p [] h = h
has_exited-among p (c ∷ cs) h = ground (arith, has_exited-among p cs)

-- From every state that the supervisor reaches in which it is stopping, or in which some process
-- that it watches has exited, its loop ends, whatever else comes: with more passes than the joins that
-- its processes may still live, counted with three more for each, no process is left.
pub supervise-Ends :
    (needs : ℕ → ℕ) (gpus : List Text) (fuel : ℕ) (schedule : Schedule) (p : ℕ) {s : Supervisor}
    → Reached needs gpus s
    → (s.stopping ≡ true) ⊎ (has_exited p s.procs ≡ true)
    → left s.procs + 1 < fuel
    → Ends fuel schedule s
supervise-Ends needs gpus zero schedule p r why enough = absurd (omega arith)
supervise-Ends needs gpus (suc fuel) schedule p {s} r why enough =
    elim (Bool-cases (is_empty s.procs)) [
      | inl e ↦ Ends-now fuel schedule s e
      | inr more ↦
          let next = round (pids s.procs) schedule s in
          let as_one =
            Reached-IsAsOne needs gpus (round-Reached needs gpus (pids s.procs) schedule s r) in
          let on = elim why as (λ _. next.0.stopping ≡ true) [
            | inl stopping ↦ round-stopping_kept (pids s.procs) schedule s stopping
            | inr gone ↦
                round-stopping (pids s.procs) schedule p s (has_exited-among p s.procs gone) gone
          ] in
          Ends-later fuel schedule s more (
            IsStopping-Ends fuel next.1 next.0
              (record { stopping = on; asked = as_one.all_asked on })
              (omega (arith, round-left (pids s.procs) schedule s)))
    ]
