-- ===== src/Inputs/UsWaters/Laws.antt =====
-- The gate together with the recorder and the merge of the lists.
use signalk_activecaptain_re.Base.{
  ◌≡◌, true, false, not, some, List, length, if◌then◌else◌, arith, Bool-cases, inl, inr,
}
use signalk_activecaptain_re.Base.Text.{Text, text_eq, text_beq_iff}
use signalk_activecaptain_re.Base.Float.{Floats}
use signalk_activecaptain_re.Base.JsMap
use signalk_activecaptain_re.Types.{Position, PoiSummary}
use signalk_activecaptain_re.Status
use signalk_activecaptain_re.Status.{SourceState}
use signalk_activecaptain_re.Status.Laws.{skipped, list_fetch, apply, get-apply}
use signalk_activecaptain_re.Inputs.Registry.{Merge, merge_one, value}
use signalk_activecaptain_re.Inputs.UsWaters.{is_in_us_waters, should_skip_outside_us_waters}

module _ {N : Type 0} ⦃F : Floats N⦄ where
  -- The gate answers yes exactly outside the envelopes. After the gate and the merge of the list
  -- that the source answers, the row of a registered source is: outside, the old row with the skip
  -- flag, so that the last fetch stays on record; inside, with the flag clear, reachable with this
  -- fetch and its number of points; inside, with the flag of an earlier skip, the old row, flag and
  -- all, so that the fetch is not recorded.
  pub skipped-merge_one :
      (position : Position N) (now source : Text) (pois : List (PoiSummary N)) (row : SourceState)
      (m : Merge N)
      → JsMap.get source m.status.states ≡ some row
      → let gate = should_skip_outside_us_waters (some position) m.status source in
        (gate.0 ≡ not (is_in_us_waters position))
        × (JsMap.get source
              (merge_one now source (value pois) (record m { status = gate.1 })).status.states
            ≡ some (
                if not (is_in_us_waters position)
                then record row { just_skipped = true }
                else if row.just_skipped
                then row
                else record row {
                  api_reachable = some true;
                  last_list_fetch = some (record { at = now; poi_count = length pois });
                  just_skipped = false;
                }))
  unfolding should_skip_outside_us_waters merge_one Status.was_just_skipped apply
  skipped-merge_one position now source pois row m h =
      elim (Bool-cases (is_in_us_waters position)) [
        | inl e ↦ (
          ground (arith, e),
          ground (
            arith,
            e,
            h,
            get-apply (list_fetch now source (length pois)) source m.status,
            text_beq_iff source source,
          ),
        )
        | inr e ↦ (
          ground (arith, e),
          ground
              (arith, e, h, get-apply (skipped source) source m.status, text_beq_iff source source),
        )
      ]
