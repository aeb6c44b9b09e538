-- ===== src/Shared/PoiTypeSelection/Laws.antt =====
-- The types that the strings name.
use signalk_activecaptain_re.Base.{
  ℕ, ◌≡◌, ◌≢◌, refl, ap, sym, ◌∙◌, Bool, true, false, ◌&&◌, ◌||◌, not, Option, none, some, List, [],
  ◌∷◌, ◌++◌, any, all, arith, nat_beq, Bool-cases, inl, inr,
}
use signalk_activecaptain_re.Base.Text.{
  Text, split_on, join_with, text_eq, text_beq_iff, extend_first,
}
use signalk_activecaptain_re.Base.Equality.{◌==◌}
use signalk_activecaptain_re.Types.{Fields, property_of, obj}
use mathlib.Core.Bool.{false≢true}
use signalk_activecaptain_re.Shared.PoiTypeSelection.{
  poi_type_flags, selected_types, any_flag_present, build_poi_types_string, contains, add_required,
  is_true, join_selected, present_types, ensure_poi_types, comma,
}

any_append {ℓ} :
    {A : Type ℓ} (p : A → Bool) (xs ys : List A) → any p (xs ++ ys) ≡ (any p xs || any p ys)
any_append p [] ys = refl
any_append p (x ∷ xs) ys = ground (arith, any_append p xs ys)

contains-add_required :
    (t : Text) (merged required : List Text)
    → contains t (add_required merged required) ≡ (contains t merged || contains t required)
unfolding add_required
contains-add_required t merged [] = ground arith
contains-add_required t merged (r ∷ rs) = elim (Bool-cases (contains r merged)) [
  | inl e ↦ ground (arith, e, contains-add_required t merged rs, text_beq_iff r t)
  | inr e ↦ ground (
    arith,
    e,
    contains-add_required t (merged ++ (r ∷ [])) rs,
    any_append (λ s. s == t) merged (r ∷ []),
    text_beq_iff r t,
  )
]

-- A type name has no comma.
abbrev pub no_comma : Text → Bool
no_comma s = all (λ c. not (nat_beq c b',')) s

split-whole : (s : Text) → no_comma s ≡ true → split_on b',' s ≡ s ∷ []
unfolding split_on
split-whole [] h = refl
split-whole (c ∷ s) h = ground (arith, split-whole s)

split-join :
    (s rest : Text)
    → no_comma s ≡ true
    → split_on b',' (s ++ (b',' ∷ rest)) ≡ s ∷ split_on b',' rest
unfolding split_on
split-join [] rest h = refl
split-join (c ∷ s) rest h = ground (arith, split-join s rest)

-- The split by commas undoes the join of names that have none.
split-join_with :
    (t : Text) (ts : List Text)
    → all no_comma (t ∷ ts) ≡ true
    → split_on b',' (join_with comma (t ∷ ts)) ≡ t ∷ ts
unfolding join_with
split-join_with t [] h = split-whole t (ground arith)
split-join_with t (u ∷ us) h =
    split-join t (join_with comma (u ∷ us)) (ground arith)
    ∙ ap (◌∷◌ t) (split-join_with u us (ground arith))

split-join_ne :
    (xs : List Text) → xs ≢ [] → all no_comma xs ≡ true → split_on b',' (join_with comma xs) ≡ xs
split-join_ne [] n h = absurd (n refl)
split-join_ne (t ∷ ts) n h = split-join_with t ts h

no_comma-split : (s : Text) → all no_comma (split_on b',' s) ≡ true
unfolding split_on
no_comma-split [] = refl
no_comma-split (c ∷ s) = elim (Bool-cases (nat_beq c b',')) [
  | inl e ↦ rw e (no_comma-split s)
  | inr e ↦ rw e (no_comma-extend c (split_on b',' s) e (no_comma-split s))
]
  where
    no_comma-extend :
        (d : ℕ) (ss : List Text)
        → nat_beq d b',' ≡ false
        → all no_comma ss ≡ true
        → all no_comma (extend_first d ss) ≡ true
    no_comma-extend d [] e h = rw e
    no_comma-extend d (s ∷ ss) e h = rw e h

no_comma-present : (o : Option Text) → all no_comma (present_types o) ≡ true
no_comma-present none = refl
no_comma-present (some []) = refl
no_comma-present (some (c ∷ s)) = no_comma-split (c ∷ s)

all-append {ℓ} :
    {A : Type ℓ} (p : A → Bool) (xs ys : List A) → all p (xs ++ ys) ≡ (all p xs && all p ys)
all-append p [] ys = refl
all-append p (x ∷ xs) ys = ground (arith, all-append p xs ys)

no_comma-add_required :
    (merged required : List Text)
    → all no_comma merged ≡ true
    → all no_comma required ≡ true
    → all no_comma (add_required merged required) ≡ true
unfolding add_required
no_comma-add_required merged [] h g = h
no_comma-add_required merged (r ∷ rs) h g = elim (Bool-cases (contains r merged)) [
  | inl e ↦ rw e (no_comma-add_required merged rs h (ground arith))
  | inr e ↦ rw e (
      no_comma-add_required (merged ++ (r ∷ [])) rs
        (all-append no_comma merged (r ∷ []) ∙ ground arith) (ground arith))
]

-- The types of the ensured string, split again, are exactly those of the given string and the
-- required ones, provided that something is required and that its names have no comma.
pub ensure_poi_types-types :
    (poi_types : Option Text) (r : Text) (rs : List Text) (t : Text)
    → all no_comma (r ∷ rs) ≡ true
    → contains t (split_on b',' (ensure_poi_types poi_types (r ∷ rs)))
      ≡ (contains t (present_types poi_types) || contains t (r ∷ rs))
unfolding ensure_poi_types
ensure_poi_types-types poi_types r rs t h =
    let merged = add_required (present_types poi_types) (r ∷ rs) in
    ap (contains t) (
      split-join_ne merged (not_empty merged kept)
        (no_comma-add_required (present_types poi_types) (r ∷ rs) (no_comma-present poi_types) h))
    ∙ contains-add_required t (present_types poi_types) (r ∷ rs)
  where
    not_empty : (xs : List Text) → contains r xs ≡ true → xs ≢ []
    not_empty [] k e = cc
    not_empty (x ∷ xs) k e = cc

    kept : contains r (add_required (present_types poi_types) (r ∷ rs)) ≡ true
    kept =
        contains-add_required r (present_types poi_types) (r ∷ rs)
        ∙ ground (arith, text_beq_iff r r)

-- The flag of a type is on.
abbrev pub switched_on : {N : Type 0} → Fields N → Text → List (Text × Text) → Bool
switched_on config t flags = any (λ f. f.1 == t && is_true (property_of f.0 (obj config))) flags

contains-selected :
    {N : Type 0} (config : Fields N) (t : Text) (flags : List (Text × Text))
    → contains t (selected_types config flags) ≡ switched_on config t flags
unfolding selected_types
contains-selected config t [] = refl
contains-selected config t ((flag, type) ∷ flags) =
    elim (Bool-cases (is_true (property_of flag (obj config)))) [
      | inl e ↦ ground (arith, e, contains-selected config t flags)
      | inr e ↦ ground (arith, e, contains-selected config t flags)
    ]

no_comma-selected :
    {N : Type 0} (config : Fields N) (flags : List (Text × Text))
    → all (λ f. no_comma f.1) flags ≡ true
    → all no_comma (selected_types config flags) ≡ true
unfolding selected_types
no_comma-selected config [] h = refl
no_comma-selected config ((flag, type) ∷ flags) h =
    elim (Bool-cases (is_true (property_of flag (obj config)))) [
      | inl e ↦ ground (arith, e, no_comma-selected config flags)
      | inr e ↦ ground (arith, e, no_comma-selected config flags)
    ]

-- Where at least one toggle is on, the string names exactly the types whose toggle is on.
pub build_poi_types_string-types :
    {N : Type 0} (config : Fields N) (t on : Text)
    → switched_on config on poi_type_flags ≡ true
    → (s : Text) × (build_poi_types_string config ≡ some s)
      × (contains t (split_on b',' s) ≡ switched_on config t poi_type_flags)
unfolding build_poi_types_string
build_poi_types_string-types config t on h = from (selected_types config poi_type_flags) refl
  where
    from :
        (xs : List Text)
        → selected_types config poi_type_flags ≡ xs
        → (s : Text) × (join_selected (any_flag_present config poi_type_flags) xs ≡ some s)
          × (contains t (split_on b',' s) ≡ switched_on config t poi_type_flags)
    from [] e =
        absurd
          (false≢true (ap (contains on) (sym e) ∙ contains-selected config on poi_type_flags ∙ h))
    from (x ∷ xs) e = (
      join_with comma (x ∷ xs),
      refl,
      ap (contains t) (
            split-join_with x xs (
              ap (all no_comma) (sym e)
              ∙ no_comma-selected config poi_type_flags (unfold poi_type_flags in refl)))
          ∙ ap (contains t) (sym e)
          ∙ contains-selected config t poi_type_flags,
    )
