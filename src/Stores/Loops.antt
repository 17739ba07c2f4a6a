-- ===== src/Stores/Loops.antt =====
-- Loops of calls of the S3 client: what a loop that returns has brought about.
use krmed_cloud_services.Base.{List, [], ◌∷◌, All}
use krmed_cloud_services.Effects.{Exn, Result, ok, raised, killed, Exec, pure, raise}
use krmed_cloud_services.Effects.Rules.{
  Keeps, Preorder, Keeps-pure, Keeps-raise, Keeps-then, Keeps-attempt, After, Triple, Triple-then,
  Triple-attempt, Anything,
}
use krmed_cloud_services.Stores.{guarded, for_each}

-- What held of a state before holds of it after.
abbrev pub Still : {S : Type 0} → (S → Type 0) → S → S → Type 0
Still P s t = P s → P t

pub Still-order : {S : Type 0} (P : S → Type 0) → Preorder (Still P)
Still-order P = record { reflexive = λ s h. h; transitive = λ s t u h k p. k (h p) }

-- What a run brings about, if it returns.
abbrev pub Gets : {S A : Type 0} → Exec S A → (A → S → Type 0) → Type 0
Gets m Q = Triple Anything m Q (λ _. Anything) Anything

pub hold_both :
    {S A : Type 0} (P : S → Type 0) (Q : A → S → Type 0) (r : Result A × S) (s : S)
    → P s
    → Still P s r.1
    → After Q (λ _. Anything) Anything r
    → After (λ a t. P t × Q a t) (λ _. Anything) Anything r
hold_both P Q (ok a, t) s p still q = (still p, q)
hold_both P Q (raised e, t) s p still q = tt
hold_both P Q (killed, t) s p still q = tt

module _ {S A : Type 0} (Got : A → S → Type 0) (op : A → Exec S (Unit {0}))
    (gets : (x : A) → Gets (op x) (λ _. Got x))
    (keeps : (x y : A) → Keeps (Still (Got y)) (op x)) where
  for_each-Keeps : (xs : List A) (y : A) → Keeps (Still (Got y)) (for_each op xs)
  unfolding for_each
  for_each-Keeps [] y = Keeps-pure (Still-order (Got y)) tt
  for_each-Keeps (x ∷ xs) y = Keeps-then (Still-order (Got y)) _ _ (keeps x y) (for_each-Keeps xs y)

  pub for_each-Gets : (xs : List A) → Gets (for_each op xs) (λ _ s. All (λ x. Got x s) xs)
  unfolding for_each pure
  for_each-Gets [] = record { at = λ s h. tt }
  for_each-Gets (x ∷ xs) = Triple-then (Got x) _ _ (gets x) (record {
    at = λ s p. hold_both (Got x) _ _ s p ((for_each-Keeps xs x).at s) ((for_each-Gets xs).at s tt);
  })

pub guarded-Gets :
    {S A : Type 0} {Q : A → S → Type 0} (e : Exn) (m : Exec S A) → Gets m Q → Gets (guarded e m) Q
unfolding guarded raise pure
guarded-Gets {Q = Q} e m h =
    Triple-attempt Q (λ _. Anything) m _ _ h (λ x. record { at = λ s p. tt })
      (λ a. record { at = λ s q. q })

pub guarded-Keeps :
    {S A : Type 0} {P : S → Type 0} (e : Exn) (m : Exec S A)
    → Keeps (Still P) m
    → Keeps (Still P) (guarded e m)
unfolding guarded
guarded-Keeps {P = P} e m h =
    Keeps-attempt (Still-order P) m _ _ h (λ x. Keeps-raise (Still-order P) _)
      (λ a. Keeps-pure (Still-order P) a)
