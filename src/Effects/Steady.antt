-- ===== src/Effects/Steady.antt =====
-- Code that keeps a condition on the state whether it returns or raises, and is not killed.
use krmed_cloud_services.Base.{◌≡◌, refl, Option, none, some}
use krmed_cloud_services.Effects.{
  Exn, Result, ok, raised, killed, Exec, pure, raise, ◌>>=◌, ◌>>◌, or_raise,
}
use krmed_cloud_services.Effects.Rules.{After, Triple, Triple-bind, Triple-then, Impossible}

abbrev pub Steady : {S A : Type 0} → (S → Type 0) → Exec S A → Type 0
Steady P m = Triple P m (λ _. P) (λ _. P) Impossible

module _ {S : Type 0} {P : S → Type 0} where
  pub Steady-pure : {A : Type 0} (a : A) → Steady P (pure {A = A} a)
  unfolding pure
  Steady-pure a = record { at = λ s h. h }

  pub Steady-raise : {A : Type 0} (e : Exn) → Steady P (raise {A = A} e)
  unfolding raise
  Steady-raise e = record { at = λ s h. h }

  pub Steady-or_raise : {A : Type 0} (o : Option A) (e : Exn) → Steady P (or_raise o e)
  unfolding or_raise
  Steady-or_raise none e = Steady-raise e
  Steady-or_raise (some a) e = Steady-pure a

  pub Steady-bind :
      {A B : Type 0} (m : Exec S A) (f : A → Exec S B)
      → Steady P m
      → ((a : A) → Steady P (f a))
      → Steady P (m >>= f)
  Steady-bind m f h k = Triple-bind (λ _. P) m f h k

  pub Steady-then :
      {A B : Type 0} (m : Exec S A) (k : Exec S B) → Steady P m → Steady P k → Steady P (m >> k)
  Steady-then m k h g = Triple-then P m k h g

-- Where neither a raise nor a kill is possible, the code returns.
pub returns_of :
    {S A : Type 0} {Q : A → S → Type 0} (r : Result A × S)
    → After Q (λ _. Impossible) Impossible r
    → (a : A) × (s : S) × (r ≡ (ok a, s)) × Q a s
returns_of (ok a, s) h = (a, s, refl, h)
returns_of (raised e, s) h = absurd h
returns_of (killed, s) h = absurd h
