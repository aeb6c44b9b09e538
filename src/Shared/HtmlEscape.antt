-- ===== src/Shared/HtmlEscape.antt =====
-- src/shared/html-escape.ts: the escape of texts that are put into HTML.
use signalk_activecaptain_re.Base.{
  ℕ, zero, suc, ◌≡◌, refl, ◌∙◌, ap, Bool, true, false, ◌&&◌, ◌||◌, Option, none, some, List, [],
  ◌∷◌, ◌++◌, arith, any, nat_beq, if◌then◌else◌,
}
use signalk_activecaptain_re.Base.Text.{Text, txt}

abbrev escape_table : List (ℕ × Text)
escape_table =
    (b'&', txt "&amp;")
    ∷ (b'<', txt "&lt;")
    ∷ (b'>', txt "&gt;")
    ∷ (34, txt "&quot;")
    ∷ (39, txt "&#39;")
    ∷ []

abbrev escape_of : ℕ → List (ℕ × Text) → Text
escape_of c [] = c ∷ []
escape_of c ((d, t) ∷ rest) = if nat_beq d c then t else escape_of c rest

-- `replace` by the table's entries, over the code units that it lists.
unfoldable pub escape_html : Text → Text
escape_html [] = []
escape_html (c ∷ s) = escape_of c escape_table ++ escape_html s

unfoldable pub labeled_paragraph : Text → Text → Text
unfolding escape_html
labeled_paragraph label value =
    txt "<p><strong>"
    ++ (escape_html label ++ (txt ":</strong> " ++ (escape_html value ++ txt ".</p>")))

abbrev is_prefix : Text → Text → Bool
is_prefix [] s = true
is_prefix (p ∷ ps) [] = false
is_prefix (p ∷ ps) (c ∷ s) = nat_beq p c && is_prefix ps s

-- The character of the entity that a text behind `&` starts with, and the units that it takes.
abbrev entity_at : Text → Option (ℕ × ℕ)
entity_at s =
    if is_prefix (txt "amp;") s
    then some (b'&', 4)
    else if is_prefix (txt "lt;") s
    then some (b'<', 3)
    else if is_prefix (txt "gt;") s
    then some (b'>', 3)
    else if is_prefix (txt "quot;") s
    then some (34, 5)
    else if is_prefix (txt "#39;") s
    then some (39, 4)
    else none

-- A reader of the entities, from the left: `skip` units still belong to the last entity.
unfoldable pub read_entities : ℕ → Text → Text
read_entities skip [] = []
read_entities (suc skip) (c ∷ s) = read_entities skip s
read_entities zero (c ∷ s) =
    let plain = read_entities zero s in
    elim (nat_beq c b'&') [
      | false ↦ c ∷ plain
      | true ↦ elim (entity_at s) [ none ↦ c ∷ plain | some (d, units) ↦ d ∷ read_entities units s ]
    ]

-- The characters that end a text or an attribute, or start a tag.
abbrev pub is_markup : ℕ → Bool
is_markup c = nat_beq c b'<' || nat_beq c b'>' || nat_beq c 34 || nat_beq c 39

read_entities-escape_of :
    (c : ℕ) (rest : Text)
    → read_entities zero (escape_of c escape_table ++ rest) ≡ c ∷ read_entities zero rest
unfolding read_entities
read_entities-escape_of c rest = ground arith

any_markup-escape_of :
    (c : ℕ) (rest : Text) → any is_markup (escape_of c escape_table ++ rest) ≡ any is_markup rest
any_markup-escape_of c rest = ground arith

-- A reader of the five entities reads an escaped text back as the text, and the escaped text has no
-- angle bracket and no quotation mark.
pub read_entities-escape_html :
    (s : Text) → (read_entities zero (escape_html s) ≡ s) × (any is_markup (escape_html s) ≡ false)
unfolding read_entities escape_html
read_entities-escape_html [] = (refl, refl)
read_entities-escape_html (c ∷ s) =
    let (read, marked) = read_entities-escape_html s in
    (
      read_entities-escape_of c (escape_html s) ∙ ap (λ (t : Text). c ∷ t) read,
      any_markup-escape_of c (escape_html s) ∙ marked,
    )
