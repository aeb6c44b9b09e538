-- ===== src/Shared/NamespacedId/Laws.antt =====
-- The split recovers what was joined.
use signalk_activecaptain_re.Base.{
  ℕ, ◌+◌, ◌≡◌, refl, ap, false, none, some, [], ◌∷◌, ◌++◌, nat_beq, length, take, drop, any, arith,
}
use signalk_activecaptain_re.Base.Text.{Text}
use signalk_activecaptain_re.Shared.NamespacedId.{starts_with, index_of, split_on_first_separator}

-- The text has no such code unit.
abbrev pub Lacks : ℕ → Text → Type 0
Lacks c s = any (λ d. nat_beq c d) s ≡ false

index_of-join :
    (c : ℕ) (prefix rest : Text)
    → Lacks c prefix
    → index_of (c ∷ []) (prefix ++ (c ∷ rest)) ≡ some (length prefix)
unfolding index_of starts_with
index_of-join c [] rest h = ground arith
index_of-join c (d ∷ prefix) rest h = ground (arith, index_of-join c prefix rest)

take-join : (prefix rest : Text) → take (length prefix) (prefix ++ rest) ≡ prefix
take-join [] rest = refl
take-join (d ∷ prefix) rest = ap (◌∷◌ d) (take-join prefix rest)

drop-join : (c : ℕ) (prefix rest : Text) → drop (length prefix + 1) (prefix ++ (c ∷ rest)) ≡ rest
drop-join c [] rest = refl
drop-join c (d ∷ prefix) rest = ground (arith, drop-join c prefix rest)

-- A prefix that is not empty and has no separator comes back, with the whole remainder, whatever
-- separators the remainder has.
pub split-join :
    (c d : ℕ) (prefix rest : Text)
    → Lacks c (d ∷ prefix)
    → split_on_first_separator ((d ∷ prefix) ++ (c ∷ rest)) (c ∷ []) ≡ some (d ∷ prefix, rest)
unfolding split_on_first_separator
split-join c d prefix rest h =
    rw (index_of-join c (d ∷ prefix) rest h, split_on_first_separator)
      (rw (take-join prefix (c ∷ rest), drop-join c (d ∷ prefix) rest))

-- A text with no separator is not split.
index_of-Lacks : (c : ℕ) (s : Text) → Lacks c s → index_of (c ∷ []) s ≡ none
unfolding index_of starts_with
index_of-Lacks c [] h = refl
index_of-Lacks c (d ∷ s) h = ground (arith, index_of-Lacks c s)

pub split-Lacks : (c : ℕ) (s : Text) → Lacks c s → split_on_first_separator s (c ∷ []) ≡ none
unfolding split_on_first_separator
split-Lacks c s h = rw (index_of-Lacks c s h, split_on_first_separator)
