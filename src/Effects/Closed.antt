-- ===== src/Effects/Closed.antt =====
-- Properties of effectful code that each way to build it keeps: what holds of all the calls that a
-- piece of code makes then holds of the code.
use krmed_cloud_services.Base.{Bool, true, false, Option, none, some, if◌then◌else◌}
use krmed_cloud_services.Effects.{
  Exn, Result, ok, raised, killed, Exec, pure, raise, ◌>>=◌, ◌>>◌, attempt, conclude, continue,
  finally, or_raise,
}
use krmed_cloud_services.Effects.Rules.{
  Keeps, Preorder, Keeps-pure, Keeps-raise, Keeps-bind, Keeps-attempt, Keeps-finally, After,
  Triple-attempt, Impossible,
}
use krmed_cloud_services.Effects.Steady.{Steady, Steady-pure, Steady-raise, Steady-bind}

pub record Closed {ℓ} {S : Type 0} (Good : (A : Type 0) → Exec S A → Type ℓ) : Type (1 ⊔ ℓ) where
  pub of_pure : (A : Type 0) (a : A) → Good A (pure a)
  pub of_raise : (A : Type 0) (e : Exn) → Good A (raise e)
  pub of_bind :
      (A B : Type 0) (m : Exec S A) (f : A → Exec S B)
      → Good A m
      → ((a : A) → Good B (f a))
      → Good B (m >>= f)
  pub of_attempt :
      (A B : Type 0) (m : Exec S A) (h : Exn → Exec S B) (f : A → Exec S B)
      → Good A m
      → ((e : Exn) → Good B (h e))
      → ((a : A) → Good B (f a))
      → Good B (attempt m h f)
  pub of_finally :
      (A : Type 0) (m : Exec S A) (c : Exec S (Unit {0}))
      → Good A m
      → Good (Unit {0}) c
      → Good A (finally m c)

module _ {ℓ} {S : Type 0} (Good : (A : Type 0) → Exec S A → Type ℓ) (closed : Closed Good) where
  pub good_then :
      (B : Type 0) (m : Exec S (Unit {0})) (k : Exec S B)
      → Good (Unit {0}) m
      → Good B k
      → Good B (m >> k)
  unfolding ◌>>◌
  good_then B m k gm gk = closed.of_bind (Unit {0}) B m (λ _. k) gm (λ _. gk)

  pub good_if :
      (A : Type 0) (b : Bool) (m n : Exec S A) → Good A m → Good A n → Good A (if b then m else n)
  good_if A true m n gm gn = gm
  good_if A false m n gm gn = gn

  pub good_or_raise : (A : Type 0) (o : Option A) (e : Exn) → Good A (or_raise o e)
  unfolding or_raise
  good_or_raise A none e = closed.of_raise A e
  good_or_raise A (some a) e = closed.of_pure A a

pub Keeps-Closed :
    {S : Type 0} {R : S → S → Type 0} → Preorder R → Closed {S = S} (λ A m. Keeps R m)
Keeps-Closed P = record {
  of_pure = λ A a. Keeps-pure P a;
  of_raise = λ A e. Keeps-raise P e;
  of_bind = λ A B m f. Keeps-bind P m f;
  of_attempt = λ A B m h f. Keeps-attempt P m h f;
  of_finally = λ A m c. Keeps-finally P m c;
}

module _ {S : Type 0} (P : S → Type 0) where
  -- A clean-up that keeps the condition, and then the outcome that was there before it.
  kept_outcome :
      {A : Type 0} (o : Result A) (r : Result (Unit {0}) × S)
      → After (λ _. P) (λ _. P) Impossible r
      → ((s : S) → P s → After (λ _. P) (λ _. P) Impossible (o, s))
      → After (λ _. P) (λ _. P) Impossible (continue r (λ _ s. (o, s)))
  kept_outcome o (ok u, s) h same = same s h
  kept_outcome o (raised e, s) h same = h
  kept_outcome o (killed, s) h same = h

  kept_result :
      {A : Type 0} (r : Result A × S) (c : Exec S (Unit {0}))
      → After (λ _. P) (λ _. P) Impossible r
      → Steady P c
      → After (λ _. P) (λ _. P) Impossible (conclude r c)
  kept_result (ok a, s) c p clean = kept_outcome (ok a) (c s) (clean.at s p) (λ t q. q)
  kept_result (raised e, s) c p clean = kept_outcome (raised e) (c s) (clean.at s p) (λ t q. q)
  kept_result (killed, s) c p clean = p

  Steady-finally :
      {A : Type 0} (m : Exec S A) (c : Exec S (Unit {0}))
      → Steady P m
      → Steady P c
      → Steady P (finally m c)
  unfolding finally
  Steady-finally m c h clean = record { at = λ s p. kept_result (m s) c (h.at s p) clean }

  pub Steady-Closed : Closed {S = S} (λ A m. Steady P m)
  Steady-Closed = record {
    of_pure = λ A a. Steady-pure a;
    of_raise = λ A e. Steady-raise e;
    of_bind = λ A B m f. Steady-bind m f;
    of_attempt = λ A B m h f. Triple-attempt (λ _. P) (λ _. P) m h f;
    of_finally = λ A m c. Steady-finally m c;
  }
