-- ===== src/Stores/Listing.antt =====
-- Listings of keys: what a store keeps of one.
use krmed_cloud_services.Base.{
  Text, ◌≡◌, refl, subst, Bool, true, List, [], ◌∷◌, ◌++◌, keep_if, All, arith, contains,
  contains-append, text_eq, text_eq_iff, text_eq_refl, Bool-cases, inl, inr,
}
use krmed_cloud_services.Schema.Uuid.{starts_with}
use krmed_cloud_services.Stores.{is_object, object_keys}

abbrev pub all_keys : List (List Text) → List Text
all_keys [] = []
all_keys (page ∷ pages) = page ++ all_keys pages

abbrev pub Complete : List Text → Text → List (List Text) → Type 0
Complete bucket prefix pages =
    (key : Text)
    → contains key bucket ≡ true
    → starts_with prefix key ≡ true
    → contains key (all_keys pages) ≡ true

pub contains-keep_if :
    (key : Text) (p : Text → Bool) (keys : List Text)
    → contains key keys ≡ true
    → p key ≡ true
    → contains key (keep_if p keys) ≡ true
unfolding contains
contains-keep_if key p [] h o = h
contains-keep_if key p (k ∷ keys) h o = elim (Bool-cases (text_eq k key)) [
  | inl same ↦
      let e : k ≡ key = (text_eq_iff k key).0 same in rw (e, o, contains, text_eq_refl key) refl
  | inr differs ↦ ground (arith, contains-keep_if key p keys)
]

pub contains-object_keys :
    (key : Text) (pages : List (List Text))
    → contains key (all_keys pages) ≡ true
    → is_object key ≡ true
    → contains key (object_keys pages) ≡ true
unfolding object_keys
contains-object_keys key [] h o = h
contains-object_keys key (page ∷ pages) h o = ground (
  arith,
  contains-append key page (all_keys pages),
  contains-append key (keep_if is_object page) (object_keys pages),
  contains-keep_if key is_object page,
  contains-object_keys key pages,
)

pub contained :
    (P : Text → Type 0) (key : Text) (keys : List Text)
    → All P keys
    → contains key keys ≡ true
    → P key
unfolding contains
contained P key [] all h = absurd (ground arith)
contained P key (k ∷ keys) all h = elim (Bool-cases (text_eq k key)) [
  | inl same ↦ subst P ((text_eq_iff k key).0 same) all.0
  | inr differs ↦ contained P key keys all.1 (ground arith)
]
