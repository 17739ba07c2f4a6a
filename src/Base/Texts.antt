-- ===== src/Base/Texts.antt =====
-- Texts as lists of code points, with equality, membership and removal.
use Prim.Native.Nat.{ℕ, suc, ◌+◌}
use Prim.Native.Char.{code}
use Prim.Native.String.{String}
use mathlib.Core.Path.{◌≡◌, refl, ap}
use mathlib.Core.Logic.{◌↔◌, ◌≢◌}
use mathlib.Core.Bool.{Bool, true, false, ◌&&◌, ◌||◌}
use mathlib.Core.List.{List, [], ◌∷◌, ◌++◌, reverse, reverse-append}
use native.Mathlib.Omega.{arith}
use krmed_cloud_services.Base.Tests.{◌==◌, if◌then◌else◌}

abbrev pub Text : Type 0
Text = List ℕ

-- The code points of a literal.
abbrev pub codes : String → Text
codes String.[] = []
codes (String.◌∷◌ c s) = code c ∷ codes s

unfoldable pub text_eq : Text → Text → Bool
text_eq [] [] = true
text_eq [] (y ∷ ys) = false
text_eq (x ∷ xs) [] = false
text_eq (x ∷ xs) (y ∷ ys) = x == y && text_eq xs ys

pub text_eq→eq : (s t : Text) → text_eq s t ≡ true → s ≡ t
unfolding text_eq
text_eq→eq [] [] h = refl
text_eq→eq [] (y ∷ ys) h = cc
text_eq→eq (x ∷ xs) [] h = cc
text_eq→eq (x ∷ xs) (y ∷ ys) h = ground (arith, text_eq→eq xs ys)

pub text_eq_refl : (s : Text) → text_eq s s ≡ true
unfolding text_eq
text_eq_refl [] = refl
text_eq_refl (x ∷ xs) = ground (arith, text_eq_refl xs)

pub text_eq_iff : (s t : Text) → (text_eq s t ≡ true) ↔ (s ≡ t)
text_eq_iff s t = (text_eq→eq s t, λ e. cc (text_eq_refl s, ap (text_eq s) e))

-- `t in texts`
unfoldable pub contains : Text → List Text → Bool
contains t [] = false
contains t (x ∷ xs) = text_eq x t || contains t xs

-- Redis LREM key 0 t: every occurrence is removed.
unfoldable pub remove_all : Text → List Text → List Text
remove_all t [] = []
remove_all t (x ∷ xs) = let rest = remove_all t xs in if text_eq x t then rest else x ∷ rest

pub contains-remove_all_self : (t : Text) (xs : List Text) → contains t (remove_all t xs) ≡ false
unfolding contains remove_all
contains-remove_all_self t [] = refl
contains-remove_all_self t (x ∷ xs) = ground (arith, contains-remove_all_self t xs)

-- Taking a text off a list brings no other onto it.
pub contains-remove_all :
    (s t : Text) (xs : List Text) → contains s xs ≡ false → contains s (remove_all t xs) ≡ false
unfolding contains remove_all
contains-remove_all s t [] h = refl
contains-remove_all s t (x ∷ xs) h = ground (arith, contains-remove_all s t xs)

pub contains-remove_all_ne :
    (s t : Text) (xs : List Text) → s ≢ t → contains s (remove_all t xs) ≡ contains s xs
unfolding contains remove_all
contains-remove_all_ne s t [] h = refl
contains-remove_all_ne s t (x ∷ xs) h =
    ground (arith, text_eq_iff x t, text_eq_iff x s, contains-remove_all_ne s t xs h)

pub contains-append :
    (t : Text) (xs ys : List Text) → contains t (xs ++ ys) ≡ (contains t xs || contains t ys)
unfolding contains
contains-append t [] ys = refl
contains-append t (x ∷ xs) ys = ground (arith, contains-append t xs ys)

pub contains-reverse : (t : Text) (xs : List Text) → contains t (reverse xs) ≡ contains t xs
unfolding contains
contains-reverse t [] = refl
contains-reverse t (x ∷ xs) =
    rw (reverse-append (x ∷ []) xs)
      (ground (arith, contains-append t (reverse xs) (x ∷ []), contains-reverse t xs))

-- How often `t` stands in the list.
unfoldable pub count : Text → List Text → ℕ
count t [] = 0
count t (x ∷ xs) = let rest = count t xs in if text_eq x t then suc rest else rest

pub count-append : (t : Text) (xs ys : List Text) → count t (xs ++ ys) ≡ count t xs + count t ys
unfolding count
count-append t [] ys = omega arith
count-append t (x ∷ xs) ys = ground (arith, count-append t xs ys)

pub count-remove_all_self : (t : Text) (xs : List Text) → count t (remove_all t xs) ≡ 0
unfolding count remove_all
count-remove_all_self t [] = refl
count-remove_all_self t (x ∷ xs) = ground (arith, count-remove_all_self t xs)
