-- ===== src/Outputs/NotesResource/NoteBuilder.antt =====
-- src/outputs/notes-resource/note-builder.ts: the note of a point of interest, as the value that is
-- sent, and the reading of a path in it.
use signalk_activecaptain_re.Base.{Option, none, some, List, [], ◌∷◌, if◌then◌else◌}
use signalk_activecaptain_re.Base.Text.{Text, txt, split_on, text_eq}
use signalk_activecaptain_re.Types.{
  Position, Value, Items, nil, cons, undefined, num, str, arr, obj, Fields, field, end, property_of,
}
use signalk_activecaptain_re.Shared.PoiTypeSelection.{has_key}

abbrev pub plugin_id : Text
plugin_id = txt "signalk-crows-nest"

abbrev pub plugin_repo_url : Text
plugin_repo_url = txt "https://github.com/NearlCrews/signalk-crows-nest"

pub record NoteResourceInput (N : Type 0) : Type 0 where
  pub name : Text
  pub position : Position N
  pub sk_icon : Text
  pub url : Text
  pub source : Text
  pub attribution : Text
  pub sources : Option (List Text)
  pub timestamp : Option Text
  pub description : Option Text

abbrev texts : {N : Type 0} → List Text → Items N
texts [] = nil
texts (t ∷ ts) = cons (str t) (texts ts)

-- More than one contributing source is listed.
abbrev sources_field : {N : Type 0} → Option (List Text) → Fields N
sources_field (some (s ∷ t ∷ ts)) = field (txt "sources") (arr (texts (s ∷ t ∷ ts))) end
sources_field _ = end

abbrev description_fields : {N : Type 0} → Option Text → Fields N
description_fields (some (c ∷ s)) =
    field (txt "description") (str (c ∷ s)) (field (txt "mimeType") (str (txt "text/html")) end)
description_fields _ = end

abbrev timestamp_fields : {N : Type 0} → Option Text → Fields N → Fields N
timestamp_fields none rest = rest
timestamp_fields (some t) rest = field (txt "timestamp") (str t) rest

abbrev url_fields : {N : Type 0} → Text → Fields N → Fields N
url_fields [] rest = rest
url_fields (c ∷ s) rest = field (txt "url") (str (c ∷ s)) rest

-- The fields in the order of their assignment.
unfoldable pub build_note_resource : {N : Type 0} → NoteResourceInput N → Fields N
build_note_resource input = field (txt "name") (str input.name) (
    field (txt "position")
      (obj (
        field (txt "latitude") (num input.position.latitude)
          (field (txt "longitude") (num input.position.longitude) end)))
      (field (txt "properties")
        (obj (
          field (txt "skIcon") (str input.sk_icon) (
            field (txt "source") (str input.source) (
              field (txt "attribution") (str input.attribution) (
                field (txt "plugin") (str plugin_id) (
                  field (txt "pluginRepo") (str plugin_repo_url) (sources_field input.sources)))))))
        (field (txt "$source") (str plugin_id) (
          url_fields input.url
            (timestamp_fields input.timestamp (description_fields input.description))))))

module _ {N : Type 0} (elsewhere : Value N → Text → Value N) where
  -- `value[key]` of an object or an array, and `undefined` of anything else. What an array has under
  -- a key, and what an object has that it does not own, is the parameter `elsewhere`.
  abbrev pub member : Value N → Text → Value N
  member (obj fields) key =
      if has_key key fields then property_of key (obj fields) else elsewhere (obj fields) key
  member (arr items) key = elsewhere (arr items) key
  member _ key = undefined

  -- The `reduce` over the keys of the path.
  unfoldable pub read_keys : List Text → Value N → Value N
  read_keys [] value = value
  read_keys (key ∷ keys) value = read_keys keys (member value key)

  unfoldable pub read_property : Fields N → Text → Value N
  unfolding read_keys
  read_property note path = read_keys (split_on b'.' path) (obj note)
