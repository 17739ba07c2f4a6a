-- ===== src/Queue/Order.antt =====
-- Order and conservation of the queue, and what a second `requeue` does.
use mathlib.Core.List.{append_assoc, reverse-append}
use krmed_cloud_services.Base.{
  Text, ℕ, zero, suc, ◌+◌, ◌≡◌, refl, ap, sym, ◌∙◌, Option, none, some, List, [], ◌∷◌, ◌++◌, map,
  reverse, count, count-append, count-remove_all_self, text_eq_refl, length, arith, Option-cases,
  inl, inr,
}
use krmed_cloud_services.Effects.{ok, pure, ◌>>=◌}
use krmed_cloud_services.Effects.Runs.{Runs, Runs-pure, Runs-bind}
use krmed_cloud_services.World.{unsnoc, World, M, write}
use krmed_cloud_services.World.Calm.{IsCalm, IsQuiet, service_calm, service_same}
use krmed_cloud_services.Queue.{move_last, claim, push_back, drop_processing, requeue}

pub unsnoc-snoc : (xs : List Text) (x : Text) → unsnoc (xs ++ x ∷ []) ≡ some (xs, x)
unfolding unsnoc
unsnoc-snoc [] x = refl
unsnoc-snoc (y ∷ xs) x = rw (unsnoc-snoc xs x, unsnoc)

unsnoc-none : (xs : List Text) → unsnoc xs ≡ none → xs ≡ []
unfolding unsnoc
unsnoc-none [] h = refl
unsnoc-none (y ∷ xs) h = ground arith

unsnoc_inverse :
    (xs front : List Text) (x : Text) → unsnoc xs ≡ some (front, x) → xs ≡ front ++ x ∷ []
unfolding unsnoc
unsnoc_inverse [] front x h = cc
unsnoc_inverse (y ∷ xs) [] x h = elim (Option-cases (unsnoc xs)) [
  | inl end ↦ ground (arith, unsnoc-none xs end)
  | inr ((f, l), more) ↦ ground arith
]
unsnoc_inverse (y ∷ xs) (z ∷ front) x h = elim (Option-cases (unsnoc xs)) [
  | inl end ↦ ground arith
  | inr ((f, l), more) ↦ ground (arith, unsnoc_inverse xs front x)
]

-- How often an id stands on the two lists together.
abbrev pub total : Text → World → ℕ
total t w = count t w.queue + count t w.processing

move_last-total : (block : ℕ) (t : Text) (w : World) → total t (move_last block w).1 ≡ total t w
unfolding move_last
move_last-total block t w = elim (Option-cases (unsnoc w.queue)) [
  | inl end ↦ ground arith
  | inr ((front, last), more) ↦
      unfold count in
      ground (
        arith,
        ap (count t) (unsnoc_inverse w.queue front last more),
        count-append t front (last ∷ []),
      )
]

-- A claim moves an id from one list to the other and loses none: each id stands on the two lists
-- together as often as before, also when the call fails, its reply is lost or the process dies, as
-- long as nobody else acts during the call.
pub claim-total :
    (block : ℕ) (t : Text) (w : World) → IsQuiet w → total t (claim block w).1 ≡ total t w
unfolding claim
claim-total block t w quiet =
    service_same (total t) (λ v n rest. refl) (move_last block) w quiet (move_last-total block t)

-- `n` claims, one after another.
unfoldable pub drain : ℕ → ℕ → M (List (Option Text))
drain block zero = pure []
drain block (suc n) = do first ← claim block; rest ← drain block n; pure (first ∷ rest)

pub claim-Runs :
    (block : ℕ) (w : World) (front : List Text) (t : Text)
    → IsCalm w
    → w.queue ≡ front ++ t ∷ []
    → Runs (claim block) w (some t) (record w { queue = front; processing = t ∷ w.processing })
unfolding claim
claim-Runs block w front t calm e = record {
  returns =
      service_calm (move_last block) w calm
      ∙ (unfold move_last in rw (ap unsnoc e ∙ unsnoc-snoc front t, move_last));
}

pub claim_empty-Runs :
    (block : ℕ) (w : World)
    → IsCalm w
    → w.queue ≡ []
    → Runs (claim block) w none (record w { now = w.now + block })
unfolding claim
claim_empty-Runs block w calm e = record {
  returns =
      service_calm (move_last block) w calm ∙ (unfold move_last in rw (ap unsnoc e, move_last));
}

drain-Runs :
    (block : ℕ) (ts : List Text) (w : World)
    → IsCalm w
    → w.queue ≡ reverse ts
    → (v : World) × Runs (drain block (length ts)) w (map some ts) v
      × (v.queue ≡ [])
      × (v.processing ≡ reverse ts ++ w.processing)
unfolding drain
drain-Runs block [] w calm e = (w, Runs-pure [] w, e, refl)
drain-Runs block (t ∷ ts) w calm e =
    let w1 = record w { queue = reverse ts; processing = t ∷ w.processing } in
    let (v, run, q, p) = drain-Runs block ts w1 calm refl in
    (
      v,
      Runs-bind _ (claim-Runs block w (reverse ts) t calm (e ∙ reverse-append (t ∷ []) ts))
          (Runs-bind _ run (Runs-pure (some t ∷ map some ts) v)),
      q,
      p
          ∙ sym (
              ap (λ l. l ++ w.processing) (reverse-append (t ∷ []) ts)
              ∙ append_assoc (reverse ts) (t ∷ []) w.processing),
    )

-- Without faults, ids that were pushed one by one on an empty queue are claimed in the order in
-- which they were pushed; after as many claims the queue is empty, and all of them are in flight.
pub drain_fifo :
    (block : ℕ) (ts : List Text) (w : World)
    → IsCalm w
    → w.queue ≡ reverse ts
    → (v : World) × (drain block (length ts) w ≡ (ok (map some ts), v))
      × (v.queue ≡ [])
      × (v.processing ≡ reverse ts ++ w.processing)
drain_fifo block ts w calm e =
    let (v, run, q, p) = drain-Runs block ts w calm e in (v, run.returns, q, p)

-- Without faults `requeue` puts one more copy of the id on the queue each time, also when one is
-- there, and takes it off the in-flight list.
pub requeue-count :
    (t : Text) (w : World)
    → IsCalm w
    → (v : World) × (requeue t w ≡ (ok tt, v))
      × (count t v.queue ≡ suc (count t w.queue))
      × (count t v.processing ≡ 0)
unfolding requeue
requeue-count t w calm = (
  push_back t w,
  service_calm (write (push_back t)) w calm,
  unfold push_back count in rw (text_eq_refl t),
  unfold push_back drop_processing in count-remove_all_self t w.processing,
)
