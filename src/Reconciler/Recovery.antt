-- ===== src/Reconciler/Recovery.antt =====
-- What a reconciliation recovers, and what it leaves alone.
use krmed_cloud_services.Base.{
  Text, ℕ, ◌≡◌, refl, ap, sym, ◌∙◌, Bool, true, false, ◌||◌, List, [], ◌∷◌, contains, remove_all,
  contains-append, contains-remove_all, contains-remove_all_self, contains-remove_all_ne, text_eq,
  text_eq_iff, text_eq_refl, Bool-cases, inl, inr, arith, ◌==◌, ==_iff,
}
use krmed_cloud_services.Schema.Uuid.{uuid_str}
use krmed_cloud_services.World.{World}
use krmed_cloud_services.Queue.{push_back, drop_processing}
use krmed_cloud_services.Status.{put_status}
use krmed_cloud_services.Repository.{update}
use krmed_cloud_services.Reconciler.Calm.{live, recovered_one, recovered, requeued}

-- On the queue and not in flight.
pub record IsWaiting (t : Text) (w : World) : Type 0 where
  pub in_queue : contains t w.queue ≡ true
  pub not_in_flight : contains t w.processing ≡ false

abbrev pub has_id : ℕ → List ℕ → Bool
has_id id [] = false
has_id id (x ∷ xs) = x == id || has_id id xs

push_back-waits : (t : Text) (w : World) → IsWaiting t (push_back t w)
unfolding push_back drop_processing
push_back-waits t w = record {
  in_queue = unfold contains in ground (arith, text_eq_refl t);
  not_in_flight = contains-remove_all_self t w.processing;
}

push_back-IsWaiting : (s t : Text) (w : World) → IsWaiting t w → IsWaiting t (push_back s w)
unfolding push_back drop_processing
push_back-IsWaiting s t w h = record {
  in_queue = unfold contains in ground (arith, h.in_queue);
  not_in_flight = contains-remove_all t s w.processing h.not_in_flight;
}

push_back-live :
    (s t : Text) (w : World)
    → contains t (live (push_back s w)) ≡ (text_eq s t || contains t (live w))
unfolding push_back live drop_processing
push_back-live s t w = elim (Bool-cases (text_eq s t)) [
  | inl same ↦ unfold contains in rw same refl
  | inr other ↦
      unfold contains in
      rw other (
        contains-append t w.queue (remove_all s w.processing)
        ∙ rw (contains-append t w.queue w.processing) (
            ap (λ b. contains t w.queue || b)
              (contains-remove_all_ne t s w.processing
                (λ e. cc (other, (text_eq_iff s t).1 (sym e))))))
]

-- `recovered_one` moves the queue as `push_back` does.
module _ (id : ℕ) (w : World) where
  recovered_one-waits : IsWaiting (uuid_str id) (recovered_one id w)
  unfolding recovered_one
  recovered_one-waits = push_back-waits (uuid_str id) _

  recovered_one-IsWaiting : (t : Text) → IsWaiting t w → IsWaiting t (recovered_one id w)
  unfolding recovered_one put_status update
  recovered_one-IsWaiting t h =
      push_back-IsWaiting (uuid_str id) t _
        (record { in_queue = h.in_queue; not_in_flight = h.not_in_flight })

  recovered_one-live :
      (t : Text)
      → contains t (live (recovered_one id w)) ≡ (text_eq (uuid_str id) t || contains t (live w))
  unfolding recovered_one
  recovered_one-live t = push_back-live (uuid_str id) t _ ∙ (unfold put_status update live in refl)

recovered-IsWaiting :
    (t : Text) (l : List ℕ) (w : World) → IsWaiting t w → IsWaiting t (recovered l w)
unfolding recovered
recovered-IsWaiting t [] w h = h
recovered-IsWaiting t (id ∷ l) w h =
    recovered-IsWaiting t l (recovered_one id w) (recovered_one-IsWaiting id w t h)

pub recovered-live :
    (t : Text) (l : List ℕ) (w : World)
    → contains t (live w) ≡ true
    → contains t (live (recovered l w)) ≡ true
unfolding recovered
recovered-live t [] w h = h
recovered-live t (id ∷ l) w h =
    recovered-live t l (recovered_one id w) (ground (arith, recovered_one-live id w t))

pub recovered-waits :
    (id : ℕ) (l : List ℕ) (w : World) → has_id id l ≡ true → IsWaiting (uuid_str id) (recovered l w)
unfolding recovered
recovered-waits id [] w h = cc
recovered-waits id (x ∷ l) w h = elim (Bool-cases (x == id)) [
  | inl same ↦
      rw ((==_iff x id).0 same)
        (recovered-IsWaiting (uuid_str id) l (recovered_one id w) (recovered_one-waits id w))
  | inr other ↦ recovered-waits id l (recovered_one x w) (ground arith)
]

pub requeued-IsWaiting :
    (known : List Text) (t : Text) (l : List ℕ) (w : World)
    → IsWaiting t w
    → IsWaiting t (requeued known l w)
unfolding requeued
requeued-IsWaiting known t [] w h = h
requeued-IsWaiting known t (id ∷ l) w h = elim (Bool-cases (contains (uuid_str id) known)) [
  | inl there ↦ rw there (requeued-IsWaiting known t l w h)
  | inr gone ↦ rw gone (
      requeued-IsWaiting known t l (push_back (uuid_str id) w)
        (push_back-IsWaiting (uuid_str id) t w h))
]

pub requeued-live :
    (known : List Text) (t : Text) (l : List ℕ) (w : World)
    → contains t (live w) ≡ true
    → contains t (live (requeued known l w)) ≡ true
unfolding requeued
requeued-live known t [] w h = h
requeued-live known t (id ∷ l) w h = elim (Bool-cases (contains (uuid_str id) known)) [
  | inl there ↦ rw there (requeued-live known t l w h)
  | inr gone ↦ rw gone (
      requeued-live known t l (push_back (uuid_str id) w)
        (ground (arith, push_back-live (uuid_str id) t w)))
]

-- A candidate is live afterwards: it was, or it is pushed back.
pub requeued-recovers :
    (known : List Text) (id : ℕ) (l : List ℕ) (w : World)
    → ((t : Text) → contains t known ≡ true → contains t (live w) ≡ true)
    → has_id id l ≡ true
    → contains (uuid_str id) (live (requeued known l w)) ≡ true
unfolding requeued
requeued-recovers known id [] w k h = cc
requeued-recovers known id (x ∷ l) w k h = elim (Bool-cases (contains (uuid_str x) known)) [
  | inl there ↦ rw there (elim (Bool-cases (x == id)) [
    | inl same ↦ requeued-live known (uuid_str id) l w (
        k (uuid_str id)
          (ap (λ n. contains (uuid_str n) known) (sym ((==_iff x id).0 same)) ∙ there))
    | inr other ↦ requeued-recovers known id l w k (ground arith)
  ])
  | inr gone ↦ rw gone (elim (Bool-cases (x == id)) [
    | inl same ↦ requeued-live known (uuid_str id) l (push_back (uuid_str x) w) (
        push_back-live (uuid_str x) (uuid_str id) w
        ∙ rw ((==_iff x id).0 same) (ground (arith, text_eq_refl (uuid_str id))))
    | inr other ↦
        requeued-recovers known id l (push_back (uuid_str x) w)
          (λ t c. ground (arith, push_back-live (uuid_str x) t w, k t c)) (ground arith)
  ])
]
