-- ===== src/Schema/Uuid.antt =====
-- The UUIDs of Python's standard library, as the worker uses them: a UUID is its 128-bit integer,
-- `str(u)` writes it and `UUID(text)` reads a text back. Texts of ASCII characters are read as
-- CPython reads them; it also takes other scripts' digits and spaces, which are left out here.
mod Digits
pub mod RoundTrip
use krmed_cloud_services.Base.{
  Text, ℕ, zero, suc, ◌-◌, ◌^◌, Bool, true, false, not, ◌&&◌, ◌||◌, Option, none, some, [], ◌∷◌,
  ◌++◌, reverse, codes, length, take, drop, keep_if, leb, ltb, ◌==◌, if◌then◌else◌,
}
unfoldable pub use Digits.{to_hex, hex_from}

abbrev pub uuid_bound : ℕ
uuid_bound = 2 ^ 128

abbrev dash : Text
dash = codes "-"

-- `'%s-%s-%s-%s-%s' % (hex[:8], hex[8:12], hex[12:16], hex[16:20], hex[20:])`
unfoldable pub grouped : Text → Text
grouped hex =
    take 8 hex
    ++ (dash
        ++ (take 4 (drop 8 hex)
            ++ (dash
                ++ (take 4 (drop 4 (drop 8 hex))
                    ++ (dash
                        ++ (take 4 (drop 4 (drop 4 (drop 8 hex)))
                            ++ (dash ++ drop 4 (drop 4 (drop 4 (drop 8 hex))))))))))

-- `str(u)`
unfoldable pub uuid_str : ℕ → Text
unfolding grouped to_hex
uuid_str n = grouped (to_hex 32 n)

abbrev pub starts_with : Text → Text → Bool
starts_with [] t = true
starts_with (p ∷ ps) [] = false
starts_with (p ∷ ps) (c ∷ t) = p == c && starts_with ps t

-- `text.replace(pattern, '')`: left to right, `skip` characters of a match are still to be dropped.
unfoldable pub without : Text → ℕ → Text → Text
without pattern skip [] = []
without pattern (suc skip) (c ∷ t) = without pattern skip t
without pattern zero (c ∷ t) = elim (starts_with pattern (c ∷ t)) [
  | true ↦ without pattern (length pattern - 1) t
  | false ↦ c ∷ without pattern zero t
]

unfoldable pub strip_left : (ℕ → Bool) → Text → Text
strip_left p [] = []
strip_left p (c ∷ t) = elim (p c) [ true ↦ strip_left p t | false ↦ c ∷ t ]

-- `text.strip(characters)`
unfoldable pub strip : (ℕ → Bool) → Text → Text
unfolding strip_left
strip p t = reverse (strip_left p (reverse (strip_left p t)))

unfoldable pub is_brace : ℕ → Bool
is_brace c = c == b'{' || c == b'}'

-- `str.isspace` of an ASCII character
unfoldable pub is_space : ℕ → Bool
is_space c = (leb 9 c && leb c 13) || (leb 28 c && leb c 32)

-- What `int` of an ASCII text passes over around the number: `isspace` of C
unfoldable pub is_c_space : ℕ → Bool
is_c_space c = (leb 9 c && leb c 13) || c == 32

abbrev not_dash : ℕ → Bool
not_dash c = not (c == b'-')

-- `int(text, 16)` of a text with no `-`: spaces, a sign, a prefix and single underscores may stand
-- around and between the digits.
unfoldable pub after_sign : Text → Text
after_sign [] = []
after_sign (c ∷ t) = if c == b'+' then t else c ∷ t

unfoldable pub after_prefix : Text → Text
after_prefix [] = []
after_prefix (c ∷ []) = c ∷ []
after_prefix (c ∷ x ∷ []) = c ∷ x ∷ []
after_prefix (c ∷ x ∷ d ∷ t) =
    if c == b'0' && (x == b'x' || x == b'X')
    then (if d == b'_' then t else d ∷ t)
    else c ∷ x ∷ d ∷ t

unfoldable pub int_16 : Text → Option ℕ
unfolding strip is_c_space after_sign after_prefix hex_from
int_16 t = hex_from true 0 (after_prefix (after_sign (strip is_c_space t)))

abbrev pub plain : Text → Text
plain t =
    keep_if not_dash (strip is_brace (without (codes "uuid:") zero (without (codes "urn:") zero t)))

-- `UUID(text)`; `none` is the `ValueError`.
unfoldable pub uuid_of : Text → Option ℕ
unfolding without strip is_brace int_16
uuid_of t = if length (plain t) == 32 then int_16 (plain t) else none
