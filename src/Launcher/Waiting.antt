-- ===== src/Launcher/Waiting.antt =====
-- The supervisor ends: each join takes away from what is left to wait for.
use krmed_cloud_services.Base.{
  ℕ, ◌+◌, ◌≤◌, ◌<◌, ◌≡◌, refl, sym, ◌∙◌, Bool, true, false, ◌||◌, List, [], ◌∷◌, map, arith, some,
  Bool-cases, inl, inr,
}
use krmed_cloud_services.Launcher.{
  Life, working, ending, exited, Child, Supervisor, Event, signal, exit, is_alive, terminate, pass,
  leave, terminate_all, on_event, on_events, join, find_child, remove_child, reap, poll, checked,
}
use krmed_cloud_services.Launcher.AsOne.{AllAsked}

-- The joins that a process may still live, with room for the steps of being asked and taken away.
abbrev life_left : ℕ → Life → ℕ
life_left needs working = needs + 3
life_left needs (ending n) = n + 2
life_left needs exited = 1

abbrev pub left : List Child → ℕ
left [] = 0
left (c ∷ cs) = life_left c.needs c.life + left cs

abbrev any_alive : List Child → Bool
any_alive [] = false
any_alive (c ∷ cs) = is_alive c.life || any_alive cs

terminate_all-left : (l : List Child) → left (terminate_all l) ≤ left l
unfolding terminate_all terminate
terminate_all-left [] = omega arith
terminate_all-left (c ∷ cs) = ground (arith, terminate_all-left cs)

leave-left : (pid : ℕ) (l : List Child) → left (map (leave pid) l) ≤ left l
unfolding leave
leave-left pid [] = omega arith
leave-left pid (c ∷ cs) = ground (arith, leave-left pid cs)

pass-left : (l : List Child) → left (map pass l) ≤ left l
unfolding pass
pass-left [] = omega arith
pass-left (c ∷ cs) = ground (arith, pass-left cs)

-- If nobody is at work, and somebody is alive, a join brings the end nearer.
pass-left_lt : (l : List Child) → AllAsked l → any_alive l ≡ true → left (map pass l) < left l
unfolding pass
pass-left_lt [] h alive = cc
pass-left_lt (c ∷ cs) h alive = ground (arith, h.0, pass-left cs, pass-left_lt cs h.1)

remove_child-left : (pid : ℕ) (l : List Child) → left (remove_child pid l) ≤ left l
unfolding remove_child
remove_child-left pid [] = omega arith
remove_child-left pid (c ∷ cs) = ground (arith, remove_child-left pid cs)

remove_child-left_lt :
    (pid : ℕ) (l : List Child) (c : Child)
    → find_child pid l ≡ some c
    → left (remove_child pid l) < left l
unfolding remove_child find_child
remove_child-left_lt pid [] c h = cc
remove_child-left_lt pid (d ∷ ds) c h = ground (arith, remove_child-left_lt pid ds c)

terminate_all-any : (l : List Child) → any_alive (terminate_all l) ≡ any_alive l
unfolding terminate_all terminate
terminate_all-any [] = refl
terminate_all-any (c ∷ cs) = ground (arith, terminate_all-any cs)

leave-any : (pid : ℕ) (l : List Child) → any_alive (map (leave pid) l) ≡ true → any_alive l ≡ true
unfolding leave
leave-any pid [] h = h
leave-any pid (c ∷ cs) h = ground (arith, leave-any pid cs)

pass-any : (l : List Child) → any_alive (map pass l) ≡ true → any_alive l ≡ true
unfolding pass
pass-any [] h = h
pass-any (c ∷ cs) h = ground (arith, pass-any cs)

on_events-any :
    (es : List Event) (s : Supervisor)
    → any_alive (on_events es s).procs ≡ true
    → any_alive s.procs ≡ true
unfolding on_events on_event
on_events-any [] s h = h
on_events-any (signal ∷ es) s h = sym (terminate_all-any s.procs) ∙ on_events-any es _ h
on_events-any (exit pid ∷ es) s h = leave-any pid s.procs (on_events-any es _ h)

on_events-left : (es : List Event) (s : Supervisor) → left (on_events es s).procs ≤ left s.procs
unfolding on_events on_event
on_events-left [] s = omega arith
on_events-left (signal ∷ es) s = omega (arith, on_events-left es _, terminate_all-left s.procs)
on_events-left (exit pid ∷ es) s = omega (arith, on_events-left es _, leave-left pid s.procs)

find_child-any :
    (pid : ℕ) (l : List Child) (c : Child)
    → find_child pid l ≡ some c
    → is_alive c.life ≡ true
    → any_alive l ≡ true
unfolding find_child
find_child-any pid [] c h alive = cc
find_child-any pid (d ∷ ds) c h alive = ground (arith, find_child-any pid ds c)

join-left : (es : List Event) (s : Supervisor) → left (join es s).procs ≤ left s.procs
unfolding join
join-left es s =
    omega (arith, on_events-left es (record s { procs = map pass s.procs }), pass-left s.procs)

join-left_lt :
    (es : List Event) (s : Supervisor)
    → AllAsked s.procs
    → any_alive (join es s).procs ≡ true
    → left (join es s).procs < left s.procs
unfolding join
join-left_lt es s asked alive = omega (
  arith,
  on_events-left es (record s { procs = map pass s.procs }),
  pass-left_lt s.procs asked (pass-any s.procs (on_events-any es _ alive)),
)

reap-left : (pid : ℕ) (s : Supervisor) → left (reap pid s).procs ≤ left s.procs
unfolding reap
reap-left pid s =
    ground (arith, remove_child-left pid s.procs, terminate_all-left (remove_child pid s.procs))

reap-left_lt :
    (pid : ℕ) (s : Supervisor) (c : Child)
    → find_child pid s.procs ≡ some c
    → left (reap pid s).procs < left s.procs
unfolding reap
reap-left_lt pid s c h =
    ground
      (arith, remove_child-left_lt pid s.procs c h, terminate_all-left (remove_child pid s.procs))

pub poll-left :
    (es : List Event) (pid : ℕ) (s : Supervisor) → left (poll es pid s).procs ≤ left s.procs
unfolding poll
poll-left es pid s = ground (arith, join-left es s, reap-left pid (join es s))

pub poll-left_lt :
    (es : List Event) (pid : ℕ) (s : Supervisor) (c : Child)
    → AllAsked s.procs
    → find_child pid (join es s).procs ≡ some c
    → left (poll es pid s).procs < left s.procs
unfolding poll
poll-left_lt es pid s c asked found = elim (Bool-cases (is_alive c.life)) [
  | inl alive ↦
      rw (found, checked, alive)
        (join-left_lt es s asked (find_child-any pid (join es s).procs c found alive))
  | inr dead ↦
      rw (found, checked, dead)
        (omega (arith, join-left es s, reap-left_lt pid (join es s) c found))
]
