-- ===== src/Outputs/NotesResource/Output.antt =====
-- src/outputs/notes-resource/notes-resource-output.ts: the methods of the resource provider. What
-- the source of the points answers is the parameter `ask`; a method gives its answer and what it
-- reports to the admin UI, if anything. The answer's keys stand in the order of their first
-- assignment.
pub mod Laws
use signalk_activecaptain_re.Base.{
  ℕ, Bool, true, false, Option, none, some, List, [], ◌∷◌, ◌++◌, length, if◌then◌else◌,
}
use signalk_activecaptain_re.Base.Text.{Text, txt, text_eq}
use signalk_activecaptain_re.Base.JsMap
use signalk_activecaptain_re.Base.JsMap.{JsMap}
use signalk_activecaptain_re.Base.Float.{Floats}
use signalk_activecaptain_re.Types.{
  Position, Bbox, PoiSummary, PoiDetailView, Value, undefined, str, obj, Fields, field, end,
}
use signalk_activecaptain_re.Shared.PoiTypeSelection.{build_poi_types_string}
use signalk_activecaptain_re.Plugin.World.{Event, plugin_error, plugin_status}
use signalk_activecaptain_re.Outputs.NotesResource.ResourceQuery.{resolve_bbox}
use signalk_activecaptain_re.Outputs.NotesResource.NoteBuilder.{
  plugin_id, NoteResourceInput, build_note_resource, read_property,
}

-- How a promise settles.
pub data Settled (A : Type 0) : Type 0 where
  fulfilled : A → Settled A
  rejected : Text → Settled A

pub record Reply (A : Type 0) : Type 0 where
  pub answer : Settled A
  pub report : Option Event

abbrev pub summary_input : {N : Type 0} → PoiSummary N → NoteResourceInput N
summary_input entity = record {
  name = entity.name;
  position = entity.position;
  sk_icon = entity.sk_icon;
  url = entity.url;
  source = entity.source;
  attribution = entity.attribution;
  sources = entity.sources;
  timestamp = none;
  description = none;
}

-- The loop over the entities.
unfoldable pub add_notes :
    {N : Type 0} → List (PoiSummary N) → JsMap Text (Fields N) → JsMap Text (Fields N)
add_notes [] resources = resources
add_notes (entity ∷ rest) resources =
    add_notes rest (JsMap.set entity.id (build_note_resource (summary_input entity)) resources)

abbrev pub view_input : {N : Type 0} → PoiDetailView N → NoteResourceInput N
view_input view = record {
  name = view.name;
  position = view.position;
  sk_icon = view.sk_icon;
  url = view.url;
  source = view.source;
  attribution = view.attribution;
  sources = none;
  timestamp = view.timestamp;
  description = view.description;
}

module _ {N : Type 0} ⦃F : Floats N⦄ (to_number : Text → N) (show : ℕ → Text)
    (ask : Bbox N → Text → Settled (List (PoiSummary N))) where
  abbrev nothing : Reply (JsMap Text (Fields N))
  nothing = record { answer = fulfilled []; report = none }

  abbrev listed : Settled (List (PoiSummary N)) → Reply (JsMap Text (Fields N))
  listed (rejected reason) = record {
    answer = rejected reason;
    report = some (plugin_error (txt "List request failed: " ++ reason));
  }
  listed (fulfilled entities) = record {
    answer = fulfilled (add_notes entities []);
    report = some (
        plugin_status (show (length entities) ++ txt " point(s) of interest from the last search"));
  }

  abbrev list_within : Option (Bbox N) → Option Text → Reply (JsMap Text (Fields N))
  list_within none poi_types = nothing
  list_within (some bbox) none = nothing
  list_within (some bbox) (some poi_types) = listed (ask bbox poi_types)

  -- `show` prints the number of the entities.
  unfoldable pub list_resources : Fields N → Fields N → Reply (JsMap Text (Fields N))
  unfolding add_notes
  list_resources config query =
      list_within (resolve_bbox to_number query) (build_poi_types_string config)

module _ {N : Type 0} (elsewhere : Value N → Text → Value N)
    (get_details : Text → Settled (PoiDetailView N)) where
  abbrev property_answer : Text → Text → Option Text → Value N → Settled (Fields N)
  property_answer id property timestamp undefined =
      rejected (txt "Resource " ++ (id ++ (txt " has no property " ++ property)))
  property_answer id property none value =
      fulfilled (field (txt "value") value (field (txt "$source") (str plugin_id) end))
  property_answer id property (some t) value = fulfilled (
      field (txt "value") value
        (field (txt "$source") (str plugin_id) (field (txt "timestamp") (str t) end)))

  abbrev property_of_note : Text → Option Text → PoiDetailView N → Settled (Fields N)
  property_of_note id none view = fulfilled (build_note_resource (view_input view))
  property_of_note id (some []) view = fulfilled (build_note_resource (view_input view))
  property_of_note id (some (c ∷ s)) view =
      property_answer id (c ∷ s) view.timestamp
        (read_property elsewhere (build_note_resource (view_input view)) (c ∷ s))

  unfoldable pub get_resource : Text → Option Text → Settled (Fields N)
  get_resource id property = elim (get_details id) [
    | rejected reason ↦ rejected reason
    | fulfilled view ↦ property_of_note id property view
  ]

abbrev read_only_message : Text
read_only_message = txt "Crow's nest notes resources are read-only"

abbrev pub set_resource : Settled (Fields ℕ)
set_resource = rejected read_only_message

abbrev pub delete_resource : Settled (Fields ℕ)
delete_resource = rejected read_only_message
