-- ===== src/Schema/Uuid/RoundTrip.antt =====
-- `UUID(str(u))` is `u`: the text of a UUID holds nothing that `UUID` strips but the dashes.
use mathlib.Core.List.{reverse-reverse}
use krmed_cloud_services.Base.{
  Text, ℕ, zero, ◌<◌, ◌≡◌, refl, ap, ◌∙◌, Bool, true, false, not, ◌&&◌, ◌||◌, some, [], ◌∷◌, ◌++◌,
  reverse, All, All-append, All-take, All-drop, All-imp, All-reverse, keep_if, keep_if-append,
  keep_if-All, take, drop, take-append-drop, arith, codes, leb, ltb, ◌==◌,
}
use krmed_cloud_services.Schema.Uuid.{
  uuid_bound, grouped, uuid_str, without, strip_left, strip, is_brace, is_c_space, after_sign,
  after_prefix, int_16, uuid_of, to_hex, plain, dash, not_dash,
}
use krmed_cloud_services.Schema.Uuid.Digits.{IsHex, to_hex-IsHex, length-to_hex, hex_from-to_hex}

without_absent : (p : ℕ) (ps t : Text) → All (λ c. (p == c) ≡ false) t → without (p ∷ ps) zero t ≡ t
unfolding without
without_absent p ps [] h = refl
without_absent p ps (c ∷ t) h = rw (h.0, without) (ap (λ r. c ∷ r) (without_absent p ps t h.1))

strip_left_absent : (p : ℕ → Bool) (t : Text) → All (λ c. p c ≡ false) t → strip_left p t ≡ t
unfolding strip_left
strip_left_absent p [] h = refl
strip_left_absent p (c ∷ t) h = rw (h.0, strip_left)

strip_absent : (p : ℕ → Bool) (t : Text) → All (λ c. p c ≡ false) t → strip p t ≡ t
unfolding strip
strip_absent p t h =
    rw (strip_left_absent p t h)
      (rw (strip_left_absent p (reverse t) (All-reverse _ t h)) (reverse-reverse t))

-- A character of the text of a UUID.
abbrev IsUuidChar : ℕ → Type 0
IsUuidChar c = (c == b'-' || (leb 48 c && leb c 102 && not (ltb 57 c && ltb c 97))) ≡ true

All-grouped : (P : ℕ → Type 0) (hex : Text) → P b'-' → All P hex → All P (grouped hex)
unfolding grouped
All-grouped P hex d h =
    let a = All-drop P 8 hex h in
    let b = All-drop P 4 (drop 8 hex) a in
    let c = All-drop P 4 (drop 4 (drop 8 hex)) b in
    All-append P _ _ (All-take P 8 hex h) (
      d,
      All-append P _ _ (All-take P 4 (drop 8 hex) a) (
        d,
        All-append P _ _ (All-take P 4 (drop 4 (drop 8 hex)) b) (
          d,
          All-append P _ _ (All-take P 4 (drop 4 (drop 4 (drop 8 hex))) c)
              (d, All-drop P 4 (drop 4 (drop 4 (drop 8 hex))) c),
        ),
      ),
    )

uuid_str-IsUuidChar : (n : ℕ) → All IsUuidChar (uuid_str n)
unfolding uuid_str
uuid_str-IsUuidChar n =
    All-grouped IsUuidChar (to_hex 32 n) refl
      (All-imp {P = IsHex} {Q = IsUuidChar} (to_hex 32 n) (λ c h. ground arith) (to_hex-IsHex 32 n))

-- Taking the dashes out of the groups gives the digits back.
keep_if-group :
    (k : ℕ) (hex rest : Text)
    → All (λ c. not_dash c ≡ true) hex
    → keep_if not_dash rest ≡ drop k hex
    → keep_if not_dash (take k hex ++ (dash ++ rest)) ≡ hex
keep_if-group k hex rest h e =
    keep_if-append not_dash (take k hex) (dash ++ rest)
    ∙ rw (keep_if-All not_dash (take k hex) (All-take _ k hex h), e) (take-append-drop k hex)

keep_if-grouped :
    (hex : Text) → All (λ c. not_dash c ≡ true) hex → keep_if not_dash (grouped hex) ≡ hex
unfolding grouped
keep_if-grouped hex h =
    let a = All-drop _ 8 hex h in
    let b = All-drop _ 4 (drop 8 hex) a in
    let c = All-drop _ 4 (drop 4 (drop 8 hex)) b in
    let d = All-drop _ 4 (drop 4 (drop 4 (drop 8 hex))) c in
    keep_if-group 8 hex _ h (
      keep_if-group 4 (drop 8 hex) _ a (
        keep_if-group 4 (drop 4 (drop 8 hex)) _ b
          (keep_if-group 4 (drop 4 (drop 4 (drop 8 hex))) _ c (keep_if-All not_dash _ d))))

-- A character that the text cannot hold is absent from it.
absent :
    (p : ℕ → Bool) (n : ℕ)
    → ((c : ℕ) → IsUuidChar c → p c ≡ false)
    → All (λ c. p c ≡ false) (uuid_str n)
absent p n none_of =
    All-imp {P = IsUuidChar} {Q = λ c. p c ≡ false} (uuid_str n) none_of (uuid_str-IsUuidChar n)

plain-uuid_str : (n : ℕ) → plain (uuid_str n) ≡ to_hex 32 n
plain-uuid_str n =
    let no_u = absent (λ c. b'u' == c) n (λ c h. ground arith) in
    let no_brace = absent is_brace n (λ c h. unfold is_brace in ground arith) in
    ap (λ t. keep_if not_dash (strip is_brace (without (codes "uuid:") zero t)))
      (without_absent b'u' (codes "rn:") (uuid_str n) no_u)
    ∙ ap (λ t. keep_if not_dash (strip is_brace t))
        (without_absent b'u' (codes "uid:") (uuid_str n) no_u)
    ∙ ap (keep_if not_dash) (strip_absent is_brace (uuid_str n) no_brace)
    ∙ (unfold uuid_str in
        keep_if-grouped (to_hex 32 n) (
          All-imp {P = IsHex} {Q = λ c. not_dash c ≡ true} (to_hex 32 n) (λ c h. ground arith)
            (to_hex-IsHex 32 n)))

after_sign_absent : (t : Text) → All IsHex t → after_sign t ≡ t
unfolding after_sign
after_sign_absent [] h = refl
after_sign_absent (c ∷ t) h = ground arith

after_prefix_absent : (t : Text) → All IsHex t → after_prefix t ≡ t
unfolding after_prefix
after_prefix_absent [] h = refl
after_prefix_absent (c ∷ []) h = refl
after_prefix_absent (c ∷ x ∷ []) h = refl
after_prefix_absent (c ∷ x ∷ d ∷ t) h = ground arith

int_16-to_hex : (n : ℕ) → n < uuid_bound → int_16 (to_hex 32 n) ≡ some n
unfolding int_16
int_16-to_hex n h =
    let digits = to_hex-IsHex 32 n in
    rw
      (strip_absent is_c_space (to_hex 32 n) (
        All-imp {P = IsHex} {Q = λ c. is_c_space c ≡ false} _
          (λ c x. unfold is_c_space in ground arith) digits))
      (rw (after_sign_absent (to_hex 32 n) digits)
        (rw (after_prefix_absent (to_hex 32 n) digits) (hex_from-to_hex 31 n h)))

-- A UUID that is written by `str` and read by `UUID` is the same UUID.
pub uuid_of-uuid_str : (n : ℕ) → n < uuid_bound → uuid_of (uuid_str n) ≡ some n
unfolding uuid_of
uuid_of-uuid_str n h = rw (plain-uuid_str n) (rw (length-to_hex 32 n) (int_16-to_hex n h))

-- Two UUIDs with one text are the same.
pub uuid_str-injective :
    (m n : ℕ) → m < uuid_bound → n < uuid_bound → uuid_str m ≡ uuid_str n → m ≡ n
uuid_str-injective m n hm hn e = cc (uuid_of-uuid_str m hm, uuid_of-uuid_str n hn, ap uuid_of e)
