-- ===== src/Shared/NamespacedId.antt =====
-- src/shared/namespaced-id.ts: the split of an id on the first separator.
pub mod Laws
use signalk_activecaptain_re.Base.{
  ℕ, zero, suc, ◌+◌, Bool, true, false, ◌&&◌, Option, none, some, List, [], ◌∷◌, nat_beq, length,
  take, drop, if◌then◌else◌,
}
use signalk_activecaptain_re.Base.Text.{Text, txt}

unfoldable pub starts_with : Text → Text → Bool
starts_with [] s = true
starts_with (c ∷ t) [] = false
starts_with (c ∷ t) (d ∷ s) = nat_beq c d && starts_with t s

abbrev next_index : Option ℕ → Option ℕ
next_index none = none
next_index (some n) = some (suc n)

-- `String.prototype.indexOf`, with `none` for -1.
unfoldable pub index_of : Text → Text → Option ℕ
unfolding starts_with
index_of needle [] = if starts_with needle [] then some 0 else none
index_of needle (c ∷ s) =
    let rest = index_of needle s in if starts_with needle (c ∷ s) then some 0 else next_index rest

-- The prefix and the remainder.
unfoldable pub split_on_first_separator : Text → Text → Option (Text × Text)
unfolding index_of
split_on_first_separator id separator = elim (index_of separator id) [
  | none ↦ none
  | some index ↦ elim index [
    | zero ↦ none
    | suc n ↦ some (take (suc n) id, drop (suc n + length separator) id)
  ]
]

unfoldable pub split_on_first_underscore : Text → Option (Text × Text)
unfolding split_on_first_separator
split_on_first_underscore id = split_on_first_separator id (b'_' ∷ [])
