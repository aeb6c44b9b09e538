-- ===== src/Inputs/UsWaters.antt =====
-- src/shared/us-waters.ts: the gate that spares the US-only inputs a request.
pub mod Laws
use signalk_activecaptain_re.Base.{
  ℕ, Bool, true, false, ◌&&◌, not, Option, none, some, List, [], ◌∷◌, any, if◌then◌else◌,
}
use signalk_activecaptain_re.Base.Text.{Text}
use signalk_activecaptain_re.Base.Float.{Floats}
use signalk_activecaptain_re.Types.{Position}
use signalk_activecaptain_re.Status
use signalk_activecaptain_re.Status.{PluginStatus}

pub record Envelope (N : Type 0) : Type 0 where
  pub min_lat : N
  pub max_lat : N
  pub min_lon : N
  pub max_lon : N

module _ {N : Type 0} ⦃F : Floats N⦄ where
  abbrev tenths : ℕ → N
  tenths n = F.ratio n 10

  abbrev envelope : N → N → N → N → Envelope N
  envelope a b c d = record { min_lat = a; max_lat = b; min_lon = c; max_lon = d }

  unfoldable pub us_waters_bboxes : List (Envelope N)
  us_waters_bboxes =
      envelope (tenths 240) (tenths 495) (F.neg (tenths 1255)) (F.neg (tenths 660))
      ∷ envelope (tenths 510) (tenths 720) (F.neg (tenths 1800)) (F.neg (tenths 1290))
      ∷ envelope (tenths 510) (tenths 560) (tenths 1720) (tenths 1800)
      ∷ envelope (tenths 185) (tenths 230) (F.neg (tenths 1610)) (F.neg (tenths 1545))
      ∷ envelope (tenths 175) (tenths 187) (F.neg (tenths 675)) (F.neg (tenths 645))
      ∷ envelope (tenths 130) (tenths 210) (tenths 1445) (tenths 1465)
      ∷ []

  abbrev pub is_inside : Position N → Envelope N → Bool
  is_inside p b =
      F.le b.min_lat p.latitude
      && F.le p.latitude b.max_lat
      && (F.le b.min_lon p.longitude && F.le p.longitude b.max_lon)

  unfoldable pub is_in_us_waters : Position N → Bool
  unfolding us_waters_bboxes
  is_in_us_waters position = any (λ b. is_inside position b) us_waters_bboxes

  -- The answer, and the status with the skip recorded.
  unfoldable pub should_skip_outside_us_waters :
      Option (Position N) → PluginStatus → Text → Bool × PluginStatus
  unfolding is_in_us_waters
  should_skip_outside_us_waters none status source_id = (false, status)
  should_skip_outside_us_waters (some position) status source_id =
      if not (is_in_us_waters position)
      then (true, Status.record_skipped source_id status)
      else (false, status)
