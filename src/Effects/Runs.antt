-- ===== src/Effects/Runs.antt =====
-- Code that is known to return: `Runs m s a t` says that `m` begun at `s` returns `a` and leaves `t`.
use krmed_cloud_services.Base.{◌≡◌, refl, ap, ◌∙◌}
use krmed_cloud_services.Effects.{
  Exn, ok, raised, Exec, pure, continue, ◌>>=◌, ◌>>◌, settle, attempt,
}

pub record Runs {S A : Type 0} (m : Exec S A) (s : S) (a : A) (t : S) : Type 0 where
  pub returns : m s ≡ (ok a, t)

pub record Raises {S A : Type 0} (m : Exec S A) (s : S) (e : Exn) (t : S) : Type 0 where
  pub raises : m s ≡ (raised e, t)

module _ {S : Type 0} where
  pub Runs-pure : {A : Type 0} (a : A) (s : S) → Runs (pure a) s a s
  unfolding pure
  Runs-pure a s = record { returns = refl }

  pub Runs-bind :
      {A B : Type 0} {m : Exec S A} (f : A → Exec S B) {s t u : S} {a : A} {b : B}
      → Runs m s a t
      → Runs (f a) t b u
      → Runs (m >>= f) s b u
  unfolding ◌>>=◌
  Runs-bind f h k = record { returns = ap (λ r. continue r f) h.returns ∙ k.returns }

  pub Runs-then :
      {A B : Type 0} {m : Exec S A} {k : Exec S B} {s t u : S} {a : A} {b : B}
      → Runs m s a t
      → Runs k t b u
      → Runs (m >> k) s b u
  unfolding ◌>>◌ ◌>>=◌
  Runs-then {k = k} h g = record { returns = ap (λ r. continue r (λ _. k)) h.returns ∙ g.returns }

  pub Raises-bind :
      {A B : Type 0} {m : Exec S A} (f : A → Exec S B) {s t : S} {e : Exn}
      → Raises m s e t
      → Raises (m >>= f) s e t
  unfolding ◌>>=◌
  Raises-bind f h = record { raises = ap (λ r. continue r f) h.raises }

  pub Raises-then :
      {A B : Type 0} {m : Exec S A} (k : Exec S B) {s t : S} {e : Exn}
      → Raises m s e t
      → Raises (m >> k) s e t
  unfolding ◌>>◌ ◌>>=◌
  Raises-then k h = record { raises = ap (λ r. continue r (λ _. k)) h.raises }

  pub Runs-bind-Raises :
      {A B : Type 0} {m : Exec S A} (f : A → Exec S B) {s t u : S} {a : A} {e : Exn}
      → Runs m s a t
      → Raises (f a) t e u
      → Raises (m >>= f) s e u
  unfolding ◌>>=◌
  Runs-bind-Raises f h k = record { raises = ap (λ r. continue r f) h.returns ∙ k.raises }

  pub Runs-then-Raises :
      {A B : Type 0} {m : Exec S A} {k : Exec S B} {s t u : S} {a : A} {e : Exn}
      → Runs m s a t
      → Raises k t e u
      → Raises (m >> k) s e u
  unfolding ◌>>◌ ◌>>=◌
  Runs-then-Raises {k = k} h g = record {
    raises = ap (λ r. continue r (λ _. k)) h.returns ∙ g.raises;
  }

  pub Runs-attempt :
      {A B : Type 0} {m : Exec S A} (h : Exn → Exec S B) (f : A → Exec S B) {s t u : S} {a : A}
      {b : B}
      → Runs m s a t
      → Runs (f a) t b u
      → Runs (attempt m h f) s b u
  unfolding attempt
  Runs-attempt h f p q = record { returns = ap (λ r. settle r h f) p.returns ∙ q.returns }

  pub Raises-attempt :
      {A B : Type 0} {m : Exec S A} (h : Exn → Exec S B) (f : A → Exec S B) {s t u : S} {e : Exn}
      {b : B}
      → Raises m s e t
      → Runs (h e) t b u
      → Runs (attempt m h f) s b u
  unfolding attempt
  Raises-attempt h f p q = record { returns = ap (λ r. settle r h f) p.raises ∙ q.returns }
