-- ===== src/Launcher/Stopping.antt =====
-- From the first exit or signal on, the supervisor's loop ends.
use krmed_cloud_services.Base.{
  ℕ, zero, suc, ◌≤◌, ◌<◌, ◌≡◌, ◌⊎◌, refl, ap, sym, subst, ◌∙◌, true, false, List, [], ◌∷◌, map,
  arith, some, Bool-cases, inl, inr, ==_refl, is_empty,
}
use krmed_cloud_services.Launcher.{
  Child, Supervisor, Event, signal, exit, terminate, pass, leave, terminate_all, on_event,
  on_events, join, find_child, reap, poll, pids, Schedule, round, supervise,
}
use krmed_cloud_services.Launcher.AsOne.{IsAsOne, AllAsked, poll-IsAsOne}
use krmed_cloud_services.Launcher.Waiting.{left, poll-left, poll-left_lt}

-- Somebody was asked to stop: then everybody was.
pub record IsStopping (s : Supervisor) : Type 0 where
  pub stopping : s.stopping ≡ true
  pub asked : AllAsked s.procs

pub on_events-stopping :
    (es : List Event) (s : Supervisor) → s.stopping ≡ true → (on_events es s).stopping ≡ true
unfolding on_events on_event
on_events-stopping [] s h = h
on_events-stopping (signal ∷ es) s h = on_events-stopping es _ refl
on_events-stopping (exit pid ∷ es) s h = on_events-stopping es _ h

pub poll-stopping :
    (es : List Event) (pid : ℕ) (s : Supervisor)
    → s.stopping ≡ true
    → (poll es pid s).stopping ≡ true
unfolding poll join reap
poll-stopping es pid s h =
    ground (arith, on_events-stopping es (record s { procs = map pass s.procs }) h)

poll-IsStopping :
    (es : List Event) (pid : ℕ) (s : Supervisor) → IsStopping s → IsStopping (poll es pid s)
poll-IsStopping es pid s h =
    let on = poll-stopping es pid s h.stopping in
    let as_one : IsAsOne [] (poll es pid s) = poll-IsAsOne [] es pid s (record {
      all_there = λ going. absurd (ground (arith, h.stopping));
      all_asked = λ _. h.asked;
    }) in
    record { stopping = on; asked = as_one.all_asked on }

pub round-left :
    (ps : List ℕ) (schedule : Schedule) (s : Supervisor)
    → left (round ps schedule s).0.procs ≤ left s.procs
unfolding round
round-left [] schedule s = omega arith
round-left (p ∷ ps) [] s = omega (arith, round-left ps [] (poll [] p s), poll-left [] p s)
round-left (p ∷ ps) (es ∷ later) s =
    omega (arith, round-left ps later (poll es p s), poll-left es p s)

pub round-IsStopping :
    (ps : List ℕ) (schedule : Schedule) (s : Supervisor)
    → IsStopping s
    → IsStopping (round ps schedule s).0
unfolding round
round-IsStopping [] schedule s h = h
round-IsStopping (p ∷ ps) [] s h = round-IsStopping ps [] _ (poll-IsStopping [] p s h)
round-IsStopping (p ∷ ps) (es ∷ later) s h = round-IsStopping ps later _ (poll-IsStopping es p s h)

pids-terminate_all : (l : List Child) → pids (terminate_all l) ≡ pids l
unfolding terminate_all terminate
pids-terminate_all [] = refl
pids-terminate_all (c ∷ cs) = ap (λ l. c.pid ∷ l) (pids-terminate_all cs)

pids-pass : (l : List Child) → pids (map pass l) ≡ pids l
unfolding pass
pids-pass [] = refl
pids-pass (c ∷ cs) = ap (λ l. c.pid ∷ l) (pids-pass cs)

pids-leave : (pid : ℕ) (l : List Child) → pids (map (leave pid) l) ≡ pids l
unfolding leave
pids-leave pid [] = refl
pids-leave pid (c ∷ cs) = ground (arith, pids-leave pid cs)

pids-on_events : (es : List Event) (s : Supervisor) → pids (on_events es s).procs ≡ pids s.procs
unfolding on_events on_event
pids-on_events [] s = refl
pids-on_events (signal ∷ es) s = pids-on_events es _ ∙ pids-terminate_all s.procs
pids-on_events (exit pid ∷ es) s = pids-on_events es _ ∙ pids-leave pid s.procs

pids-join : (es : List Event) (s : Supervisor) → pids (join es s).procs ≡ pids s.procs
unfolding join
pids-join es s = pids-on_events es _ ∙ pids-pass s.procs

find_first :
    (p : ℕ) (ps : List ℕ) (l : List Child)
    → pids l ≡ p ∷ ps
    → (c : Child) × (find_child p l ≡ some c)
unfolding find_child
find_first p ps [] h = absurd (ground arith)
find_first p ps (c ∷ cs) h = (c, ground (arith, ==_refl p))

-- A pass over the processes brings the end nearer, once they are stopping.
round-left_lt :
    (c : Child) (cs : List Child) (schedule : Schedule) (s : Supervisor)
    → IsStopping s
    → s.procs ≡ c ∷ cs
    → left (round (c.pid ∷ pids cs) schedule s).0.procs < left s.procs
unfolding round
round-left_lt c cs [] s h e =
    let (d, found) = find_first c.pid (pids cs) (join [] s).procs (pids-join [] s ∙ ap pids e) in
    omega
      (arith, round-left (pids cs) [] (poll [] c.pid s), poll-left_lt [] c.pid s d h.asked found)
round-left_lt c cs (es ∷ later) s h e =
    let (d, found) = find_first c.pid (pids cs) (join es s).procs (pids-join es s ∙ ap pids e) in
    omega
      (arith, round-left (pids cs) later (poll es c.pid s), poll-left_lt es c.pid s d h.asked found)

List-cases : (l : List Child) → (l ≡ []) ⊎ ((c : Child) × (cs : List Child) × (l ≡ c ∷ cs))
List-cases [] = inl refl
List-cases (c ∷ cs) = inr (c, cs, refl)

pass_nearer :
    (schedule : Schedule) (s : Supervisor)
    → IsStopping s
    → is_empty s.procs ≡ false
    → left (round (pids s.procs) schedule s).0.procs < left s.procs
pass_nearer schedule s h more = elim (List-cases s.procs) [
  | inl e ↦ absurd (ground (arith, ap is_empty e))
  | inr (c, cs, e) ↦
      subst (λ l. left (round l schedule s).0.procs < left s.procs) (sym (ap pids e))
        (round-left_lt c cs schedule s h e)
]

-- The end of the loop.
abbrev pub Ends : ℕ → Schedule → Supervisor → Type 0
Ends fuel schedule s = (t : Supervisor) × (supervise fuel schedule s ≡ some t) × (t.procs ≡ [])

pub Ends-now :
    (fuel : ℕ) (schedule : Schedule) (s : Supervisor)
    → is_empty s.procs ≡ true
    → Ends (suc fuel) schedule s
unfolding supervise
Ends-now fuel schedule s e = (s, rw e refl, no_procs s.procs e)
  where
    no_procs : (l : List Child) → is_empty l ≡ true → l ≡ []
    no_procs [] h = refl
    no_procs (c ∷ cs) h = cc

pub Ends-later :
    (fuel : ℕ) (schedule : Schedule) (s : Supervisor)
    → is_empty s.procs ≡ false
    → Ends fuel (round (pids s.procs) schedule s).1 (round (pids s.procs) schedule s).0
    → Ends (suc fuel) schedule s
unfolding supervise
Ends-later fuel schedule s more (t, run, done) = (t, rw more run, done)

pub IsStopping-Ends :
    (fuel : ℕ) (schedule : Schedule) (s : Supervisor)
    → IsStopping s
    → left s.procs < fuel
    → Ends fuel schedule s
IsStopping-Ends zero schedule s h enough = elim enough [ ]
IsStopping-Ends (suc fuel) schedule s h enough = elim (Bool-cases (is_empty s.procs)) [
  | inl e ↦ Ends-now fuel schedule s e
  | inr more ↦
      let next = round (pids s.procs) schedule s in
      Ends-later fuel schedule s more (
        IsStopping-Ends fuel next.1 next.0 (round-IsStopping (pids s.procs) schedule s h)
          (omega (arith, pass_nearer schedule s h more)))
]
