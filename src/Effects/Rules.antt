-- ===== src/Effects/Rules.antt =====
-- Rules about effectful code, one for each way to build it: relations that every run keeps, and
-- Hoare triples with a postcondition for a return, a raise and a kill.
use krmed_cloud_services.Base.{◌≡◌, subst, Option, none, some, Bool, true, false, if◌then◌else◌}
use krmed_cloud_services.Effects.{
  Exn, Result, ok, raised, killed, Exec, pure, raise, continue, ◌>>=◌, ◌>>◌, settle, attempt,
  conclude, finally, or_raise,
}

-- Every run of `m` relates the state it began in to the state it ended in, however it ended.
pub record Keeps {S A : Type 0} (R : S → S → Type 0) (m : Exec S A) : Type 0 where
  pub at : (s : S) → R s (m s).1

-- A relation on states that holds of no change and of one change after another.
pub record Preorder {S : Type 0} (R : S → S → Type 0) : Type 0 where
  pub reflexive : (s : S) → R s s
  pub transitive : (s t u : S) → R s t → R t u → R s u

module _ {S : Type 0} {R : S → S → Type 0} (P : Preorder R) where
  pub Keeps-pure : {A : Type 0} (a : A) → Keeps R (pure a)
  unfolding pure
  Keeps-pure a = record { at = P.reflexive }

  pub Keeps-raise : {A : Type 0} (e : Exn) → Keeps R (raise {A = A} e)
  unfolding raise
  Keeps-raise e = record { at = P.reflexive }

  pub Keeps-or_raise : {A : Type 0} (o : Option A) (e : Exn) → Keeps R (or_raise o e)
  unfolding or_raise
  Keeps-or_raise none e = record { at = P.reflexive }
  Keeps-or_raise (some a) e = record { at = P.reflexive }

  pub Keeps-if :
      {A : Type 0} (b : Bool) (m n : Exec S A)
      → Keeps R m
      → Keeps R n
      → Keeps R (if b then m else n)
  Keeps-if true m n km kn = km
  Keeps-if false m n km kn = kn

  continue-keeps :
      {A B : Type 0} (s : S) (r : Result A × S) (f : A → Exec S B)
      → R s r.1
      → ((a : A) → Keeps R (f a))
      → R s (continue r f).1
  continue-keeps s (ok a, t) f h k = P.transitive s t _ h ((k a).at t)
  continue-keeps s (raised e, t) f h k = h
  continue-keeps s (killed, t) f h k = h

  pub Keeps-bind :
      {A B : Type 0} (m : Exec S A) (f : A → Exec S B)
      → Keeps R m
      → ((a : A) → Keeps R (f a))
      → Keeps R (m >>= f)
  unfolding ◌>>=◌
  Keeps-bind m f km kf = record { at = λ s. continue-keeps s (m s) f (km.at s) kf }

  pub Keeps-then :
      {A B : Type 0} (m : Exec S A) (k : Exec S B) → Keeps R m → Keeps R k → Keeps R (m >> k)
  unfolding ◌>>◌
  Keeps-then m k km kk = record { at = λ s. continue-keeps s (m s) (λ _. k) (km.at s) (λ _. kk) }

  settle-keeps :
      {A B : Type 0} (s : S) (r : Result A × S) (h : Exn → Exec S B) (f : A → Exec S B)
      → R s r.1
      → ((e : Exn) → Keeps R (h e))
      → ((a : A) → Keeps R (f a))
      → R s (settle r h f).1
  settle-keeps s (ok a, t) h f p kh kf = P.transitive s t _ p ((kf a).at t)
  settle-keeps s (raised e, t) h f p kh kf = P.transitive s t _ p ((kh e).at t)
  settle-keeps s (killed, t) h f p kh kf = p

  pub Keeps-attempt :
      {A B : Type 0} (m : Exec S A) (h : Exn → Exec S B) (f : A → Exec S B)
      → Keeps R m
      → ((e : Exn) → Keeps R (h e))
      → ((a : A) → Keeps R (f a))
      → Keeps R (attempt m h f)
  unfolding attempt
  Keeps-attempt m h f km kh kf = record { at = λ s. settle-keeps s (m s) h f (km.at s) kh kf }

  conclude-keeps :
      {A : Type 0} (s : S) (r : Result A × S) (c : Exec S (Unit {0}))
      → R s r.1
      → Keeps R c
      → R s (conclude r c).1
  conclude-keeps s (ok a, t) c p kc =
      continue-keeps s (c t) _ (P.transitive s t _ p (kc.at t)) (λ _. record { at = P.reflexive })
  conclude-keeps s (raised e, t) c p kc =
      continue-keeps s (c t) _ (P.transitive s t _ p (kc.at t)) (λ _. record { at = P.reflexive })
  conclude-keeps s (killed, t) c p kc = p

  pub Keeps-finally :
      {A : Type 0} (m : Exec S A) (c : Exec S (Unit {0}))
      → Keeps R m
      → Keeps R c
      → Keeps R (finally m c)
  unfolding finally
  Keeps-finally m c km kc = record { at = λ s. conclude-keeps s (m s) c (km.at s) kc }

-- What holds after a run: `Q` after a return, `E` after a raise, `K` after a kill.
abbrev pub After :
    {S A : Type 0} → (A → S → Type 0) → (Exn → S → Type 0) → (S → Type 0) → Result A × S → Type 0
After Q E K (ok a, s) = Q a s
After Q E K (raised e, s) = E e s
After Q E K (killed, s) = K s

pub record Triple {S A : Type 0} (P : S → Type 0) (m : Exec S A) (Q : A → S → Type 0)
    (E : Exn → S → Type 0) (K : S → Type 0) : Type 0 where
  pub at : (s : S) → P s → After Q E K (m s)

module _ {S : Type 0} {E : Exn → S → Type 0} {K : S → Type 0} where
  continue-After :
      {A B : Type 0} {M : A → S → Type 0} {Q : B → S → Type 0} (r : Result A × S) (f : A → Exec S B)
      → After M E K r
      → ((a : A) → Triple (M a) (f a) Q E K)
      → After Q E K (continue r f)
  continue-After (ok a, s) f h t = (t a).at s h
  continue-After (raised e, s) f h t = h
  continue-After (killed, s) f h t = h

  pub Triple-bind :
      {A B : Type 0} {P : S → Type 0} {Q : B → S → Type 0} (M : A → S → Type 0) (m : Exec S A)
      (f : A → Exec S B)
      → Triple P m M E K
      → ((a : A) → Triple (M a) (f a) Q E K)
      → Triple P (m >>= f) Q E K
  unfolding ◌>>=◌
  Triple-bind M m f tm tf = record { at = λ s h. continue-After (m s) f (tm.at s h) tf }

  pub Triple-then :
      {A B : Type 0} {P : S → Type 0} {Q : B → S → Type 0} (M : S → Type 0) (m : Exec S A)
      (k : Exec S B)
      → Triple P m (λ _. M) E K
      → Triple M k Q E K
      → Triple P (m >> k) Q E K
  unfolding ◌>>◌
  Triple-then M m k tm tk = record {
    at = λ s h. continue-After (m s) (λ _. k) (tm.at s h) (λ _. tk);
  }

  settle-After :
      {A B : Type 0} {M : A → S → Type 0} {N : Exn → S → Type 0} {Q : B → S → Type 0}
      (r : Result A × S) (h : Exn → Exec S B) (f : A → Exec S B)
      → After M N K r
      → ((e : Exn) → Triple (N e) (h e) Q E K)
      → ((a : A) → Triple (M a) (f a) Q E K)
      → After Q E K (settle r h f)
  settle-After (ok a, s) h f p th tf = (tf a).at s p
  settle-After (raised e, s) h f p th tf = (th e).at s p
  settle-After (killed, s) h f p th tf = p

  pub Triple-attempt :
      {A B : Type 0} {P : S → Type 0} {Q : B → S → Type 0} (M : A → S → Type 0)
      (N : Exn → S → Type 0) (m : Exec S A) (h : Exn → Exec S B) (f : A → Exec S B)
      → Triple P m M N K
      → ((e : Exn) → Triple (N e) (h e) Q E K)
      → ((a : A) → Triple (M a) (f a) Q E K)
      → Triple P (attempt m h f) Q E K
  unfolding attempt
  Triple-attempt M N m h f tm th tf = record {
    at = λ s p. settle-After (m s) h f (tm.at s p) th tf;
  }

pub Triple-if :
    {S A : Type 0} {P : S → Type 0} {Q : A → S → Type 0} {E : Exn → S → Type 0} {K : S → Type 0}
    (b : Bool) (m n : Exec S A)
    → Triple P m Q E K
    → Triple P n Q E K
    → Triple P (if b then m else n) Q E K
Triple-if true m n tm tn = tm
Triple-if false m n tm tn = tn

-- A state after which nothing is claimed.
abbrev pub Anything : {S : Type 0} → S → Type 0
Anything _ = Unit

abbrev pub Impossible : {S : Type 0} → S → Type 0
Impossible _ = ⊥

-- What a postcondition says of a run that returned.
pub after_ok :
    {S A : Type 0} (Q : A → S → Type 0) (r : Result A × S) (a : A) (s : S)
    → After Q (λ _. Anything) Anything r
    → r ≡ (ok a, s)
    → Q a s
after_ok Q r a s h e = subst (After Q (λ _. Anything) Anything) e h

pub any_run :
    {S A : Type 0} {P : S → Type 0} (m : Exec S A)
    → Triple P m (λ _. Anything) (λ _. Anything) Anything
any_run {S} m = record { at = λ s _. anyhow (m s) }
  where
    anyhow : {A : Type 0} (r : Result A × S) → After (λ _. Anything) (λ _. Anything) Anything r
    anyhow (ok a, s) = tt
    anyhow (raised e, s) = tt
    anyhow (killed, s) = tt
