-- ===== src/Inputs/Registry.antt =====
-- src/inputs/input-registry.ts: the registration of the inputs, the merge of their lists and the
-- routing of detail requests. The race of a source against the timeout is decided outside: a list
-- request has one outcome for each source. The dedupe pass behind the merge is not part of this file.
pub mod Laws
use signalk_activecaptain_re.Base.{
  ℕ, Bool, true, false, ◌&&◌, ◌||◌, not, Option, none, some, List, [], ◌∷◌, ◌++◌, map, any, filter,
  length, if◌then◌else◌, nat_beq,
}
use signalk_activecaptain_re.Base.Text.{Text, txt, text_eq}
use signalk_activecaptain_re.Base.JsMap
use signalk_activecaptain_re.Base.JsMap.{JsMap}
use signalk_activecaptain_re.Types.{PoiSummary}
use signalk_activecaptain_re.Shared.NamespacedId.{split_on_first_separator}
use signalk_activecaptain_re.Status
use signalk_activecaptain_re.Status.{PluginStatus}

-- A registered module under the configuration of the run. `S` is the type of the sources.
pub record InputModule (S : Type 0) : Type 0 where
  pub id : Text
  pub name : Text
  pub enabled : Bool
  pub source : S

abbrev pub hyphen : ℕ
hyphen = b'-'

-- `none` is the error for a slug with a hyphen.
unfoldable pub create_registry : {S : Type 0} → List (InputModule S) → Option (List (InputModule S))
create_registry modules =
    if any (λ m. any (λ c. nat_beq hyphen c) m.id) modules then none else some modules

-- How the list request of one source ended within the time that it had.
pub data Outcome (N : Type 0) : Type 0 where
  value : List (PoiSummary N) → Outcome N
  timeout : Outcome N
  failed : Text → Outcome N

unfoldable pub namespaced : {N : Type 0} → Text → PoiSummary N → PoiSummary N
namespaced source_id poi = record poi { id = (source_id ++ (hyphen ∷ [])) ++ poi.id }

-- The variables of the loop over the settled requests.
pub record Merge (N : Type 0) : Type 0 where
  pub merged : List (PoiSummary N)
  pub any_ok : Bool
  pub any_timeout : Bool
  pub status : PluginStatus

unfoldable pub merge_one : {N : Type 0} → Text → Text → Outcome N → Merge N → Merge N
unfolding namespaced
merge_one now source_id timeout m = record m {
  any_timeout = true;
  status = Status.record_skipped source_id m.status;
}
merge_one now source_id (value pois) m = record m {
  any_ok = true;
  status =
      if Status.was_just_skipped source_id m.status
      then m.status
      else Status.record_list_fetch now source_id (length pois) m.status;
  merged = m.merged ++ map (namespaced source_id) pois;
}
merge_one now source_id (failed reason) m = record m {
  status =
      Status.record_error now source_id
        (txt "List from \"" ++ (source_id ++ (txt "\" failed: " ++ reason))) m.status;
}

unfoldable pub merge_all : {N : Type 0} → Text → List (Text × Outcome N) → Merge N → Merge N
unfolding merge_one
merge_all now [] m = m
merge_all now ((source_id, outcome) ∷ rest) m =
    merge_all now rest (merge_one now source_id outcome m)

-- The merged list, or `none` for the error when every source failed, with the status.
unfoldable pub list_points_of_interest :
    {N : Type 0}
    → Text
    → List (Text × Outcome N)
    → PluginStatus
    → Option (List (PoiSummary N)) × PluginStatus
unfolding merge_all
list_points_of_interest now outcomes status =
    let m =
      merge_all now outcomes
        (record { merged = []; any_ok = false; any_timeout = false; status = status }) in
    (if not m.any_ok && not m.any_timeout then none else some m.merged, m.status)

-- The source that a detail request goes to, and the id that it is asked for; `none` is the error.
unfoldable pub route_details : {S : Type 0} → JsMap Text S → Text → Option (S × Text)
route_details sources id = elim (split_on_first_separator id (hyphen ∷ [])) [
  | none ↦ none
  | some (prefix, remainder) ↦ elim (JsMap.get prefix sources) [
    | none ↦ none
    | some source ↦ some (source, remainder)
  ]
]
