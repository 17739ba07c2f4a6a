-- ===== src/Paths/Suffix.antt =====
-- Suffixes: one is empty, or a dot with more behind it that holds no other dot. Slashes at the end
-- of a path change neither its name nor its suffix.
use mathlib.Core.List.{reverse-append, reverse-reverse}
use krmed_cloud_services.Base.{
  Text, ℕ, ◌≡◌, refl, ap, sym, subst, ◌∙◌, false, none, some, List, [], ◌∷◌, ◌++◌, reverse, arith,
  ◌==◌, ==_iff, if◌then◌else◌, Option-cases, Bool-cases, inl, inr, is_empty,
}
use krmed_cloud_services.Paths.{
  split, is_dropped, last_part, name_of, from_last_dot, or_empty, suffix_of_name, suffix, lower,
  lower_char, lstrip, rstrip,
}

abbrev IsSuffix : Text → Type 0
IsSuffix [] = ⊥
IsSuffix (c ∷ []) = c ≡ b'.'
IsSuffix (c ∷ d ∷ t) = (c ≡ b'.') × ((d == b'.') ≡ false)

from_last_dot-none : (d : ℕ) (t : Text) → from_last_dot (d ∷ t) ≡ none → (d == b'.') ≡ false
unfolding from_last_dot
from_last_dot-none d t h = ground arith

-- A text that is its own suffix from its last dot on.
head-IsSuffix : (c : ℕ) (t : Text) → from_last_dot t ≡ none → c ≡ b'.' → IsSuffix (c ∷ t)
head-IsSuffix c [] h e = e
head-IsSuffix c (d ∷ t) h e = (e, from_last_dot-none d t h)

from_last_dot-IsSuffix : (t s : Text) → from_last_dot t ≡ some s → IsSuffix s
unfolding from_last_dot
from_last_dot-IsSuffix [] s h = cc
from_last_dot-IsSuffix (c ∷ t) s h = elim (Option-cases (from_last_dot t)) [
  | inr (u, found) ↦ from_last_dot-IsSuffix t s (ground arith)
  | inl last ↦ elim (Bool-cases (c == b'.')) [
    | inl dot ↦
        let e : c ∷ t ≡ s = ground arith in
        subst IsSuffix e (head-IsSuffix c t last ((==_iff c b'.').0 dot))
    | inr other ↦ absurd (ground arith)
  ]
]

-- The suffix of a name, once the dot is taken off and it is put in lower case, is empty exactly
-- when it was empty.
bare_nonempty :
    (s : Text)
    → IsSuffix s
    → is_empty (lstrip b'.' (lower (or_empty (some s)))) ≡ is_empty (or_empty (some s))
unfolding or_empty lower lower_char lstrip
bare_nonempty [] h = refl
bare_nonempty (c ∷ []) h = refl
bare_nonempty (c ∷ d ∷ t) h = ground arith

bare_name :
    (name : Text)
    → is_empty (lstrip b'.' (lower (suffix_of_name name))) ≡ is_empty (suffix_of_name name)
unfolding suffix_of_name
bare_name [] = unfold lower lstrip in refl
bare_name (c ∷ t) = elim (Option-cases (from_last_dot t)) [
  | inl no_dot ↦ rw (no_dot, suffix_of_name) (unfold or_empty lower lstrip in refl)
  | inr (s, found) ↦ rw (found, suffix_of_name) (bare_nonempty s (from_last_dot-IsSuffix t s found))
]

pub is_empty-bare :
    (path : Text) → is_empty (lstrip b'.' (lower (suffix path))) ≡ is_empty (suffix path)
unfolding suffix
is_empty-bare path = bare_name (name_of path)

split-snoc :
    (sep : ℕ) (t : Text) → split sep (t ++ sep ∷ []) ≡ ((split sep t).0, (split sep t).1 ++ [] ∷ [])
unfolding split
split-snoc sep [] = ground arith
split-snoc sep (c ∷ t) = ground (arith, split-snoc sep t)

last_part-snoc : (n : Text) (ps : List Text) → last_part n (ps ++ [] ∷ []) ≡ last_part n ps
unfolding last_part
last_part-snoc n [] = refl
last_part-snoc n (p ∷ ps) = last_part-snoc (if is_dropped p then n else p) ps

pub name_of-slash : (t : Text) → name_of (t ++ b'/' ∷ []) ≡ name_of t
unfolding name_of
name_of-slash t =
    ap (λ (s : Text × List Text). last_part [] (s.0 ∷ s.1)) (split-snoc b'/' t)
    ∙ last_part-snoc [] ((split b'/' t).0 ∷ (split b'/' t).1)

name_of-lstrip : (r : Text) → name_of (reverse (lstrip b'/' r)) ≡ name_of (reverse r)
unfolding lstrip
name_of-lstrip [] = refl
name_of-lstrip (x ∷ t) = elim (Bool-cases (x == b'/')) [
  | inl slash ↦
      rw (slash, lstrip)
        (name_of-lstrip t
          ∙ rw (reverse-append (x ∷ []) t)
              (rw ((==_iff x b'/').0 slash) (sym (name_of-slash (reverse t)))))
  | inr other ↦ rw (other, lstrip)
]

-- `path.rstrip('/')` has the name of `path`.
pub name_of-rstrip : (path : Text) → name_of (rstrip b'/' path) ≡ name_of path
unfolding rstrip
name_of-rstrip path = name_of-lstrip (reverse path) ∙ ap name_of (reverse-reverse path)
