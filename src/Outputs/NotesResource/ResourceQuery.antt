-- ===== src/Outputs/NotesResource/ResourceQuery.antt =====
-- src/outputs/notes-resource/resource-query.ts: from an untyped query to the box of a search. The
-- language's `Number` on a text is the parameter `to_number`.
use signalk_activecaptain_re.Base.{
  ℕ, Bool, true, false, ◌&&◌, ◌||◌, not, Option, none, some, List, [], ◌∷◌, map, all, any, filter,
  nat_beq, leb, if◌then◌else◌,
}
use signalk_activecaptain_re.Base.Text.{Text, txt, split_on}
use signalk_activecaptain_re.Base.Float.{Floats, lit}
use signalk_activecaptain_re.Types.{
  Position, Bbox, Value, Items, nil, cons, undefined, str, arr, obj, Fields, property_of,
}
use signalk_activecaptain_re.Geo.{position_to_bbox}
use signalk_activecaptain_re.Shared.Numbers.{to_finite_number}

-- The white space and line ends that `trim` and `\s` stand for.
abbrev pub is_space : ℕ → Bool
is_space c =
    (leb 9 c && leb c 13)
    || any (λ s. nat_beq s c) (32 ∷ 160 ∷ 5760 ∷ 8232 ∷ 8233 ∷ 8239 ∷ 8287 ∷ 12288 ∷ 65279 ∷ [])
    || (leb 8192 c && leb c 8202)

abbrev pub elements : {N : Type 0} → Items N → List (Value N)
elements nil = []
elements (cons v vs) = v ∷ elements vs

-- What `/[[\]\s]/g` removes.
abbrev pub is_stripped : ℕ → Bool
is_stripped c = nat_beq c b'[' || nat_beq c b']' || is_space c

module _ {N : Type 0} ⦃F : Floats N⦄ (to_number : Text → N) where
  unfoldable pub parse_finite_number : Value N → Option N
  parse_finite_number (str t) =
      if all is_space t then none else to_finite_number (Value.num (to_number t))
  parse_finite_number v = to_finite_number v

  abbrev position_from : Option N → Option N → Option (Position N)
  position_from (some latitude) (some longitude) =
      some (record { latitude = latitude; longitude = longitude })
  position_from _ _ = none

  unfoldable pub resolve_position : Value N → Option (Position N)
  unfolding parse_finite_number
  resolve_position (arr (cons x (cons y rest))) =
      position_from (parse_finite_number y) (parse_finite_number x)
  resolve_position (obj fields) =
      position_from (parse_finite_number (property_of (txt "latitude") (obj fields)))
        (parse_finite_number (property_of (txt "longitude") (obj fields)))
  resolve_position _ = none

  -- The parts of a value that may be a box, or `none` for the early return.
  abbrev pub parts_of : Value N → Option (List (Value N))
  parts_of (str t) = some (map (λ s. str s) (split_on b',' (filter (λ c. not (is_stripped c)) t)))
  parts_of (arr items) = some (elements items)
  parts_of _ = none

  abbrev pub bbox_of : List (Option N) → Option (Bbox N)
  bbox_of (some west ∷ some south ∷ some east ∷ some north ∷ []) =
      some (record { west = west; south = south; east = east; north = north })
  bbox_of _ = none

  unfoldable pub resolve_explicit_bbox : Value N → Option (Bbox N)
  unfolding parse_finite_number
  resolve_explicit_bbox raw = elim (parts_of raw) [
    | none ↦ none
    | some parts ↦ bbox_of (map (λ v. parse_finite_number v) parts)
  ]

  abbrev is_given : Value N → Bool
  is_given undefined = false
  is_given _ = true

  abbrev box_around : Option (Position N) → N → Option (Bbox N)
  box_around none distance = none
  box_around (some center) distance = position_to_bbox center distance

  -- A finite center and a positive distance are what `positionToBbox` does not throw on.
  unfoldable pub resolve_bbox : Fields N → Option (Bbox N)
  unfolding resolve_explicit_bbox resolve_position
  resolve_bbox query =
      if is_given (property_of (txt "bbox") (obj query))
      then resolve_explicit_bbox (property_of (txt "bbox") (obj query))
      else elim (parse_finite_number (property_of (txt "distance") (obj query))) [
        | none ↦ none
        | some distance ↦
            if F.le distance (lit 0)
            then none
            else box_around (resolve_position (property_of (txt "position") (obj query))) distance
      ]
