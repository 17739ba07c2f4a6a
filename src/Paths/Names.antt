-- ===== src/Paths/Names.antt =====
-- Names of paths: a name has no slash, is its own name, and is found behind the last slash.
use krmed_cloud_services.Base.{
  Text, ◌≡◌, ◌⊎◌, refl, ap, ◌∙◌, false, List, [], ◌∷◌, ◌++◌, arith, ◌==◌, All, if◌then◌else◌,
  Bool-cases, inl, inr,
}
use krmed_cloud_services.Paths.{split, is_dropped, last_part, name_of}

abbrev pub IsSlashFree : Text → Type 0
IsSlashFree t = All (λ c. (c == b'/') ≡ false) t

-- A name as `PurePosixPath` gives it: none, or a part that counts.
pub record IsName (t : Text) : Type 0 where
  pub no_slash : IsSlashFree t
  pub counts : (t ≡ []) ⊎ (is_dropped t ≡ false)

split_free : (t : Text) → IsSlashFree t → split b'/' t ≡ (t, [])
unfolding split
split_free [] h = refl
split_free (c ∷ t) h = rw (split_free t h.1, h.0) refl

split-join :
    (a n : Text)
    → IsSlashFree n
    → split b'/' (a ++ b'/' ∷ n) ≡ ((split b'/' a).0, (split b'/' a).1 ++ n ∷ [])
unfolding split
split-join [] n h = rw (split_free n h) refl
split-join (c ∷ a) n h = ground (arith, split-join a n h)

last_part_join :
    (d n : Text) (ps : List Text) → is_dropped n ≡ false → last_part d (ps ++ n ∷ []) ≡ n
unfolding last_part
last_part_join d n [] h = rw h refl
last_part_join d n (p ∷ ps) h = last_part_join (if is_dropped p then d else p) n ps h

-- What stands behind the last slash is the name.
pub name_of-join : (a n : Text) → IsSlashFree n → is_dropped n ≡ false → name_of (a ++ b'/' ∷ n) ≡ n
unfolding name_of
name_of-join a n free counts =
    ap (λ (s : Text × List Text). last_part [] (s.0 ∷ s.1)) (split-join a n free)
    ∙ last_part_join [] n ((split b'/' a).0 ∷ (split b'/' a).1) counts

split-IsSlashFree : (t : Text) → IsSlashFree (split b'/' t).0 × All IsSlashFree (split b'/' t).1
unfolding split
split-IsSlashFree [] = (tt, tt)
split-IsSlashFree (c ∷ t) = elim (Bool-cases (c == b'/')) [
  | inl slash ↦ rw slash (tt, split-IsSlashFree t)
  | inr other ↦ rw other ((other, (split-IsSlashFree t).0), (split-IsSlashFree t).1)
]

last_part-IsName :
    (d : Text) (ps : List Text) → IsName d → All IsSlashFree ps → IsName (last_part d ps)
unfolding last_part
last_part-IsName d [] h free = h
last_part-IsName d (p ∷ ps) h free = elim (Bool-cases (is_dropped p)) [
  | inl dropped ↦ rw dropped (last_part-IsName d ps h free.1)
  | inr counts ↦
      rw counts (last_part-IsName p ps (record { no_slash = free.0; counts = inr counts }) free.1)
]

pub name_of-IsName : (path : Text) → IsName (name_of path)
unfolding name_of
name_of-IsName path =
    last_part-IsName [] ((split b'/' path).0 ∷ (split b'/' path).1)
      (record { no_slash = tt; counts = inl refl }) (split-IsSlashFree path)

name_of_self : (t : Text) → IsName t → name_of t ≡ t
unfolding name_of last_part
name_of_self t h =
    rw (split_free t h.no_slash) (elim h.counts [
      | inl none ↦ rw none (unfold is_dropped in refl)
      | inr counts ↦ rw counts refl
    ])

pub name_of_idempotent : (path : Text) → name_of (name_of path) ≡ name_of path
name_of_idempotent path = name_of_self (name_of path) (name_of-IsName path)
