-- ===== src/Tests/Notes.antt =====
-- Runs of the notes output and of the escape of texts.
use signalk_activecaptain_re.Base.{ℕ, zero, ◌≡◌, refl, false, none, List, [], ◌∷◌, any}
use signalk_activecaptain_re.Base.Text.{Text, txt, text_beq, text_eq, split_on}
use signalk_activecaptain_re.Base.JsMap
use signalk_activecaptain_re.Base.JsMap.{JsMap}
use signalk_activecaptain_re.Types.{
  Bbox, PoiSummary, PoiType, Value, undefined, num, arr, nil, cons, Fields, field, end,
}
use signalk_activecaptain_re.Shared.HtmlEscape.{
  escape_html, read_entities, is_markup, read_entities-escape_html,
}
use signalk_activecaptain_re.Shared.PoiTypeSelection.{
  build_poi_types_string, selected_types, poi_type_flags, any_flag_present,
}
use signalk_activecaptain_re.Outputs.NotesResource.ResourceQuery.{
  resolve_bbox, resolve_explicit_bbox, parse_finite_number,
}
use signalk_activecaptain_re.Shared.Numbers.{to_finite_number}
use signalk_activecaptain_re.Outputs.NotesResource.NoteBuilder.{
  build_note_resource, read_property, read_keys,
}
use signalk_activecaptain_re.Outputs.NotesResource.Output.{
  Settled, fulfilled, summary_input, list_resources, add_notes,
}
use signalk_activecaptain_re.Outputs.NotesResource.Output.Laws.{
  last_with, note_of, points_for, get-list_resources,
}
use signalk_activecaptain_re.Tests.Sample.{whole_numbers, at, sample_poi}

abbrev corners : Value ℕ
corners = arr (cons (num 1) (cons (num 2) (cons (num 3) (cons (num 4) nil))))

abbrev in_corners : Fields ℕ
in_corners = field (txt "bbox") corners end

abbrev no_number : Text → ℕ
no_number t = 0

abbrev digit : ℕ → Text
digit n = n ∷ []

abbrev rock : PoiSummary ℕ
rock = sample_poi (txt "a-1") PoiType.hazard none (at 1 1)

abbrev answers : Bbox ℕ → Text → Settled (List (PoiSummary ℕ))
answers bbox types = fulfilled (rock ∷ [])

abbrev notes : JsMap Text (Fields ℕ)
notes = (txt "a-1", build_note_resource (summary_input rock)) ∷ []

listed_lem : (list_resources no_number digit answers end in_corners).answer ≡ fulfilled notes
unfolding list_resources resolve_bbox resolve_explicit_bbox parse_finite_number to_finite_number
    build_poi_types_string selected_types any_flag_present poi_type_flags add_notes JsMap.set
    text_beq
listed_lem = refl

get-list_resources_example :
    JsMap.get (txt "a-1") notes
    ≡ note_of (
        last_with (txt "a-1") (
          points_for no_number digit answers
            (resolve_bbox no_number in_corners)
            (build_poi_types_string {N = ℕ} end)))
get-list_resources_example =
    get-list_resources no_number digit answers end in_corners (txt "a-1") notes listed_lem

-- A path that ends in a field of `properties`.
path_of_source :
    read_property
      (λ v k. undefined)
      (build_note_resource (summary_input rock))
      (txt "properties.source")
    ≡ Value.str (txt "activecaptain")
unfolding read_property read_keys build_note_resource split_on text_beq
path_of_source = refl

read_entities-escape_html_example :
    (read_entities zero (escape_html (txt "<b> & co")) ≡ txt "<b> & co")
    × (any is_markup (escape_html (txt "<b> & co")) ≡ false)
read_entities-escape_html_example = read_entities-escape_html (txt "<b> & co")
