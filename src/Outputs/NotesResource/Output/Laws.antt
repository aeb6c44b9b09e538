-- ===== src/Outputs/NotesResource/Output/Laws.antt =====
-- What a list request answers under an id.
use signalk_activecaptain_re.Base.{
  ℕ, ◌≡◌, refl, ◌∙◌, ap, sym, Option, none, some, List, [], ◌∷◌, arith, if◌then◌else◌,
}
use signalk_activecaptain_re.Base.Text.{Text, text_eq, text_beq}
use signalk_activecaptain_re.Base.JsMap
use signalk_activecaptain_re.Base.JsMap.{JsMap}
use signalk_activecaptain_re.Base.Float.{Floats}
use signalk_activecaptain_re.Types.{Bbox, PoiSummary, Fields}
use signalk_activecaptain_re.Shared.PoiTypeSelection.{build_poi_types_string}
use signalk_activecaptain_re.Outputs.NotesResource.ResourceQuery.{resolve_bbox}
use signalk_activecaptain_re.Outputs.NotesResource.NoteBuilder.{build_note_resource}
use signalk_activecaptain_re.Outputs.NotesResource.Output.{
  Settled, fulfilled, rejected, summary_input, add_notes, list_within, listed, list_resources,
}

-- The last point of the list that has the id.
abbrev pub last_with : {N : Type 0} → Text → List (PoiSummary N) → Option (PoiSummary N)
last_with id [] = none
last_with id (p ∷ ps) = elim (last_with id ps) [
  | some q ↦ some q
  | none ↦ if text_beq p.id id then some p else none
]

abbrev pub note_of : {N : Type 0} → Option (PoiSummary N) → Option (Fields N)
note_of none = none
note_of (some p) = some (build_note_resource (summary_input p))

abbrev or_else : {N : Type 0} → Option (Fields N) → Option (Fields N) → Option (Fields N)
or_else (some note) o = some note
or_else none o = o

get-add_notes :
    {N : Type 0} (id : Text) (ps : List (PoiSummary N)) (m : JsMap Text (Fields N))
    → JsMap.get id (add_notes ps m) ≡ or_else (note_of (last_with id ps)) (JsMap.get id m)
unfolding add_notes
get-add_notes id [] m = refl
get-add_notes id (p ∷ ps) m =
    let ih = get-add_notes id ps (JsMap.set p.id (build_note_resource (summary_input p)) m) in
    ground (arith, ih, JsMap.get-set p.id id (build_note_resource (summary_input p)) m)

or_else-none : {N : Type 0} (o : Option (Fields N)) → or_else o none ≡ o
or_else-none none = refl
or_else-none (some note) = refl

module _ {N : Type 0} ⦃F : Floats N⦄ (to_number : Text → N) (show : ℕ → Text)
    (ask : Bbox N → Text → Settled (List (PoiSummary N))) where
  -- The points that the source listed for the request; none without a box or a selected type.
  abbrev listed_points : Settled (List (PoiSummary N)) → List (PoiSummary N)
  listed_points (fulfilled ps) = ps
  listed_points (rejected reason) = []

  abbrev pub points_for : Option (Bbox N) → Option Text → List (PoiSummary N)
  points_for none poi_types = []
  points_for (some bbox) none = []
  points_for (some bbox) (some poi_types) = listed_points (ask bbox poi_types)

  get-listed :
      (id : Text) (r : Settled (List (PoiSummary N))) (resources : JsMap Text (Fields N))
      → (listed to_number show ask r).answer ≡ fulfilled resources
      → JsMap.get id resources ≡ note_of (last_with id (listed_points r))
  unfolding JsMap.get
  get-listed id (rejected reason) resources h = cc h
  get-listed id (fulfilled ps) resources h =
      let same : add_notes ps [] ≡ resources = cc h in
      ap (JsMap.get id) (sym same)
      ∙ (get-add_notes id ps [] ∙ or_else-none (note_of (last_with id ps)))

  get-list_within :
      (id : Text) (b : Option (Bbox N)) (t : Option Text) (resources : JsMap Text (Fields N))
      → (list_within to_number show ask b t).answer ≡ fulfilled resources
      → JsMap.get id resources ≡ note_of (last_with id (points_for b t))
  unfolding JsMap.get
  get-list_within id none t resources h =
      let same : [] ≡ resources = cc h in ap (JsMap.get id) (sym same)
  get-list_within id (some b) none resources h =
      let same : [] ≡ resources = cc h in ap (JsMap.get id) (sym same)
  get-list_within id (some b) (some t) resources h = get-listed id (ask b t) resources h

  -- When a list request is answered, the answer has under an id the note of the last point with
  -- that id among those that the source listed for the box of the query and the selected types, and
  -- nothing under an id that no such point has, or where there is no box or no selected type.
  pub get-list_resources :
      (config query : Fields N) (id : Text) (resources : JsMap Text (Fields N))
      → (list_resources to_number show ask config query).answer ≡ fulfilled resources
      → JsMap.get id resources
        ≡ note_of (
            last_with id
              (points_for (resolve_bbox to_number query) (build_poi_types_string config)))
  unfolding list_resources
  get-list_resources config query id resources h =
      get-list_within id (resolve_bbox to_number query) (build_poi_types_string config) resources h
