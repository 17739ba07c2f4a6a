-- ===== src/Schema/Uuid/Digits.antt =====
-- Hexadecimal digits, written with leading zeros and read as `int(text, 16)` reads them.
use native.Mathlib.Nat.{pow-suc}
use krmed_cloud_services.Base.{
  Text, ℕ, zero, suc, ◌+◌, ◌-◌, ◌*◌, ◌/◌, ◌%◌, ◌^◌, ◌<◌, ◌≡◌, refl, Bool, true, false, ◌&&◌, Option,
  none, some, [], ◌∷◌, ◌++◌, All, All-append, arith, leb, ltb, ◌==◌, if◌then◌else◌, length,
  length-append, Option-cases, inl, inr, ◌∙◌, ap,
}

unfoldable pub hex_digit : ℕ → ℕ
hex_digit d = if ltb d 10 then 48 + d else 87 + d

unfoldable pub hex_value : ℕ → Option ℕ
hex_value c =
    if leb 48 c && leb c 57
    then some (c - 48)
    else if leb 97 c && leb c 102
    then some (c - 87)
    else if leb 65 c && leb c 70
    then some (c - 55)
    else none

-- The last `k` hexadecimal digits, the highest first: `'%0kx' % n` for `n < 16 ^ k`.
unfoldable pub to_hex : ℕ → ℕ → Text
unfolding hex_digit
to_hex zero n = []
to_hex (suc k) n = to_hex k (n / 16) ++ hex_digit (n % 16) ∷ []

-- One character of an integer literal: whether a digit must follow, and the value so far. One
-- underscore is allowed between two digits.
unfoldable pub hex_step : Bool → ℕ → ℕ → Option (Bool × ℕ)
unfolding hex_value
hex_step pending acc c =
    if c == b'_'
    then (if pending then none else some (true, acc))
    else elim (hex_value c) [ none ↦ none | some d ↦ some (false, acc * 16 + d) ]

unfoldable pub hex_from : Bool → ℕ → Text → Option ℕ
hex_from pending acc [] = if pending then none else some acc
hex_from pending acc (c ∷ t) = elim (hex_step pending acc c) [
  | none ↦ none
  | some (pending', acc') ↦ hex_from pending' acc' t
]

-- A lower-case hexadecimal digit.
abbrev pub IsHex : ℕ → Type 0
IsHex c = (leb 48 c && leb c 102 ≡ true) × (ltb 57 c && ltb c 97 ≡ false)

pub hex_digit-IsHex : (d : ℕ) → d < 16 → IsHex (hex_digit d)
unfolding hex_digit
hex_digit-IsHex d h = (ground arith, ground arith)

pub hex_value-hex_digit : (d : ℕ) → d < 16 → hex_value (hex_digit d) ≡ some d
unfolding hex_digit hex_value
hex_value-hex_digit d h = ground arith

pub to_hex-IsHex : (k n : ℕ) → All IsHex (to_hex k n)
unfolding to_hex
to_hex-IsHex zero n = tt
to_hex-IsHex (suc k) n =
    All-append IsHex (to_hex k (n / 16)) (hex_digit (n % 16) ∷ []) (to_hex-IsHex k (n / 16))
      (hex_digit-IsHex (n % 16) (omega arith), tt)

pub length-to_hex : (k n : ℕ) → length (to_hex k n) ≡ k
unfolding to_hex
length-to_hex zero n = refl
length-to_hex (suc k) n = omega (
  arith,
  length-append {0} (to_hex k (n / 16)) (hex_digit (n % 16) ∷ []),
  length-to_hex k (n / 16),
)

hex_step-digit :
    (p : Bool) (acc d : ℕ) → d < 16 → hex_step p acc (hex_digit d) ≡ some (false, acc * 16 + d)
unfolding hex_step hex_digit
hex_step-digit p acc d h = ground arith

-- One more digit at the end.
hex_from-snoc :
    (p : Bool) (acc v d : ℕ) (t : Text)
    → d < 16
    → hex_from p acc t ≡ some v
    → hex_from p acc (t ++ hex_digit d ∷ []) ≡ some (v * 16 + d)
unfolding hex_from
hex_from-snoc true acc v d [] h e = cc
hex_from-snoc false acc v d [] h e = ground (arith, hex_step-digit false acc d h)
hex_from-snoc p acc v d (c ∷ t) h e = elim (Option-cases (hex_step p acc c)) [
  | inl stop ↦ ground arith
  | inr ((q, a), next) ↦ rw (next, hex_from) (hex_from-snoc q a v d t h (rw (next, hex_from) at e))
]

pub hex_from-to_hex : (k n : ℕ) → n < 16 ^ suc k → hex_from true 0 (to_hex (suc k) n) ≡ some n
unfolding to_hex
hex_from-to_hex zero n h = unfold hex_from in ground (arith, hex_step-digit true 0 (n % 16))
hex_from-to_hex (suc k) n h =
    hex_from-snoc true 0 (n / 16) (n % 16) (to_hex (suc k) (n / 16)) (omega arith)
      (hex_from-to_hex k (n / 16) (omega (arith, pow-suc 16 (suc k))))
    ∙ ap some (omega arith)
