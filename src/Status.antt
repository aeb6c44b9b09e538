-- ===== src/Status.antt =====
-- src/status/plugin-status.ts: the recorder of request outcomes. A call that reads the clock takes
-- the reading as its first argument.
pub mod Laws
use signalk_activecaptain_re.Base.{
  ℕ, Bool, true, false, Option, none, some, List, [], ◌∷◌, map, take, length,
}
use signalk_activecaptain_re.Base.Text.{Text, text_eq}
use signalk_activecaptain_re.Base.JsMap
use signalk_activecaptain_re.Base.JsMap.{JsMap}

pub record StatusError : Type 0 where
  pub at : Text
  pub message : Text

pub record LastListFetch : Type 0 where
  pub at : Text
  pub poi_count : ℕ

pub record SourceState : Type 0 where
  pub name : Text
  pub api_reachable : Option Bool
  pub last_list_fetch : Option LastListFetch
  pub just_skipped : Bool

pub record SourceStatus : Type 0 where
  pub source : Text
  pub name : Text
  pub api_reachable : Option Bool
  pub last_list_fetch : Option LastListFetch

pub record StatusSnapshot : Type 0 where
  pub sources : List SourceStatus
  pub cached_poi_count : ℕ
  pub recent_errors : List StatusError
  pub started_at : Text

pub record PluginStatus : Type 0 where
  pub started_at : Text
  pub recent_errors : List StatusError
  pub states : JsMap Text SourceState

abbrev pub max_recent_errors : ℕ
max_recent_errors = 5

abbrev new_state : Text → SourceState
new_state name = record {
  name = name;
  api_reachable = none;
  last_list_fetch = none;
  just_skipped = false;
}

-- The loop that fills the table; the pairs are a source's slug and name.
unfoldable pub fill_states : List (Text × Text) → JsMap Text SourceState → JsMap Text SourceState
fill_states [] m = m
fill_states ((source, name) ∷ rest) m = fill_states rest (JsMap.set source (new_state name) m)

unfoldable pub create : Text → List (Text × Text) → PluginStatus
unfolding fill_states
create now sources = record {
  started_at = now;
  recent_errors = [];
  states = fill_states sources [];
}

-- A write to the row of a source, if there is one.
unfoldable pub update_row :
    Text → (SourceState → SourceState) → JsMap Text SourceState → JsMap Text SourceState
update_row source f m = elim (JsMap.get source m) [
  | none ↦ m
  | some state ↦ JsMap.set source (f state) m
]

unfoldable pub mark_reachable : Text → PluginStatus → PluginStatus
mark_reachable source s = record s {
  states = update_row source (λ r. record r { api_reachable = some true }) s.states;
}

unfoldable pub record_list_fetch : Text → Text → ℕ → PluginStatus → PluginStatus
unfolding mark_reachable
record_list_fetch now source poi_count s =
    let marked = mark_reachable source s in
    record marked {
      states =
          update_row source
            (λ r. record r {
              last_list_fetch = some (record { at = now; poi_count = poi_count });
              just_skipped = false;
            })
            marked.states;
    }

unfoldable pub record_detail_success : Text → PluginStatus → PluginStatus
record_detail_success source s = mark_reachable source s

unfoldable pub record_error : Text → Text → Text → PluginStatus → PluginStatus
record_error now source message s = record s {
  states =
      update_row source (λ r. record r { api_reachable = some false; just_skipped = false })
        s.states;
  recent_errors = take max_recent_errors (record { at = now; message = message } ∷ s.recent_errors);
}

unfoldable pub record_skipped : Text → PluginStatus → PluginStatus
record_skipped source s = record s {
  states = update_row source (λ r. record r { just_skipped = true }) s.states;
}

abbrev row_skipped : Option SourceState → Bool
row_skipped none = false
row_skipped (some r) = r.just_skipped

unfoldable pub was_just_skipped : Text → PluginStatus → Bool
unfolding JsMap.get
was_just_skipped source s = row_skipped (JsMap.get source s.states)

abbrev row_status : Text × SourceState → SourceStatus
row_status (source, r) = record {
  source = source;
  name = r.name;
  api_reachable = r.api_reachable;
  last_list_fetch = r.last_list_fetch;
}

unfoldable pub snapshot : ℕ → PluginStatus → StatusSnapshot
snapshot cached_poi_count s = record {
  sources = map row_status s.states;
  cached_poi_count = cached_poi_count;
  recent_errors = s.recent_errors;
  started_at = s.started_at;
}
