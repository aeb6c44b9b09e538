-- ===== src/Status/Laws.antt =====
-- The rows and the error list over every sequence of recordings.
use signalk_activecaptain_re.Base.{
  ℕ, zero, suc, ◌≤◌, ◌≡◌, Bool, true, false, Option, none, some, List, [], ◌∷◌, take, length,
  if◌then◌else◌, arith, Option-cases, inl, inr,
}
use signalk_activecaptain_re.Base.Text.{Text, text_eq, text_beq_iff}
use signalk_activecaptain_re.Base.Equality.{◌==◌}
use signalk_activecaptain_re.Base.JsMap
use signalk_activecaptain_re.Base.JsMap.{JsMap}
use signalk_activecaptain_re.Status.{
  SourceState, PluginStatus, update_row, mark_reachable, record_list_fetch, record_detail_success,
  record_error, record_skipped,
}

-- A call of the recorder, with the reading of the clock.
pub data Recording : Type 0 where
  list_fetch : Text → Text → ℕ → Recording
  detail_success : Text → Recording
  error : Text → Text → Text → Recording
  skipped : Text → Recording

unfoldable pub apply : Recording → PluginStatus → PluginStatus
apply (list_fetch now source n) s = record_list_fetch now source n s
apply (detail_success source) s = record_detail_success source s
apply (error now source message) s = record_error now source message s
apply (skipped source) s = record_skipped source s

unfoldable pub apply_all : List Recording → PluginStatus → PluginStatus
apply_all [] s = s
apply_all (r ∷ rs) s = apply_all rs (apply r s)

take_bound : {A : Type 0} (n : ℕ) (xs : List A) → length (take n xs) ≤ n
take_bound zero xs = omega arith
take_bound (suc n) [] = omega arith
take_bound (suc n) (x ∷ xs) = omega (arith, take_bound n xs)

recent-apply :
    (r : Recording) (s : PluginStatus)
    → length s.recent_errors ≤ 5
    → length (apply r s).recent_errors ≤ 5
unfolding apply record_list_fetch record_detail_success record_error record_skipped mark_reachable
recent-apply (list_fetch now source n) s h = h
recent-apply (detail_success source) s h = h
recent-apply (error now source message) s h =
    take_bound 5 (record { at = now; message = message } ∷ s.recent_errors)
recent-apply (skipped source) s h = h

-- From a list of at most five errors, whatever is recorded, at most five are kept.
pub recent_errors_capped :
    (rs : List Recording) (s : PluginStatus)
    → length s.recent_errors ≤ 5
    → length (apply_all rs s).recent_errors ≤ 5
unfolding apply_all
recent_errors_capped [] s h = h
recent_errors_capped (r ∷ rs) s h = recent_errors_capped rs (apply r s) (recent-apply r s h)

-- The row of a source after a write to the row of a source.
abbrev written : Bool → (SourceState → SourceState) → Option SourceState → Option SourceState
written here f none = none
written true f (some r) = some (f r)
written false f (some r) = some r

get-update_row :
    (source j : Text) (f : SourceState → SourceState) (m : JsMap Text SourceState)
    → JsMap.get j (update_row source f m) ≡ written (source == j) f (JsMap.get j m)
unfolding update_row
get-update_row source j f m = elim (Option-cases (JsMap.get source m)) [
  | inl e ↦ rw (e, update_row) (ground (arith, e, text_beq_iff source j))
  | inr (v, e) ↦
      rw (e, update_row) (ground (arith, e, text_beq_iff source j, JsMap.get-set source j (f v) m))
]

-- What one recording does to the row of one source, written down independently of the table.
abbrev pub row_after : Recording → Text → SourceState → SourceState
row_after (list_fetch now source n) j r =
    if source == j
    then record r {
      api_reachable = some true;
      last_list_fetch = some (record { at = now; poi_count = n });
      just_skipped = false;
    }
    else r
row_after (detail_success source) j r =
    if source == j then record r { api_reachable = some true } else r
row_after (error now source message) j r =
    if source == j then record r { api_reachable = some false; just_skipped = false } else r
row_after (skipped source) j r = if source == j then record r { just_skipped = true } else r

abbrev pub map_row : (SourceState → SourceState) → Option SourceState → Option SourceState
map_row f none = none
map_row f (some r) = some (f r)

pub get-apply :
    (rec : Recording) (j : Text) (s : PluginStatus)
    → JsMap.get j (apply rec s).states ≡ map_row (row_after rec j) (JsMap.get j s.states)
unfolding apply record_list_fetch record_detail_success record_error record_skipped mark_reachable
get-apply (list_fetch now source n) j s =
    let reached = λ (r : SourceState). record r { api_reachable = some true } in
    let fetched = λ (r : SourceState). record r {
      last_list_fetch = some (record { at = now; poi_count = n });
      just_skipped = false;
    } in
    ground (
      arith,
      get-update_row source j fetched (update_row source reached s.states),
      get-update_row source j reached s.states,
    )
get-apply (detail_success source) j s =
    ground (arith, get-update_row source j (λ r. record r { api_reachable = some true }) s.states)
get-apply (error now source message) j s = ground (
  arith,
  get-update_row source j (λ r. record r { api_reachable = some false; just_skipped = false })
      s.states,
)
get-apply (skipped source) j s =
    ground (arith, get-update_row source j (λ r. record r { just_skipped = true }) s.states)

-- Fold of the row rule over a sequence of recordings.
unfoldable pub row_after_all : List Recording → Text → SourceState → SourceState
row_after_all [] j r = r
row_after_all (rec ∷ recs) j r = row_after_all recs j (row_after rec j r)

-- After any sequence of recordings the row of a source is what the recordings of that source alone
-- make of it, and a source without a row gets none.
pub get-apply_all :
    (recs : List Recording) (j : Text) (s : PluginStatus)
    → JsMap.get j (apply_all recs s).states ≡ map_row (row_after_all recs j) (JsMap.get j s.states)
unfolding apply_all row_after_all
get-apply_all [] j s = ground arith
get-apply_all (rec ∷ recs) j s =
    ground (arith, get-apply_all recs j (apply rec s), get-apply rec j s)
