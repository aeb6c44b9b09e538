-- ===== src/Tests/Sample.antt =====
-- The sample number type, cache and data of the tests.
use signalk_activecaptain_re.Base.{
  ℕ, ◌+◌, ◌-◌, ◌*◌, ◌/◌, ◌%◌, ◌^◌, min, max, refl, true, Option, none, [], ◌∷◌, leb, ltb, nat_beq,
  arith, if◌then◌else◌,
}
use signalk_activecaptain_re.Base.Text.{Text, txt, text_eq, text_beq_iff}
use signalk_activecaptain_re.Base.JsMap
use signalk_activecaptain_re.Base.JsMap.{JsMap}
use signalk_activecaptain_re.Base.Float.{Floats}
use signalk_activecaptain_re.Base.Lru.{Lru}
use signalk_activecaptain_re.Types.{PoiType, Position, PoiSummary}
use signalk_activecaptain_re.Notification.Emitter.{App, alarming_on}
use signalk_activecaptain_re.Notification.Tracker.{Tracker, TrackerConfig, IsSynced}

-- Whole numbers, with flat trigonometry: every operation is one on ℕ, and a ratio is rounded up.
instance abbrev pub whole_numbers : Floats ℕ
whole_numbers = record {
  is_finite = λ a. true;
  le = leb;
  lt = ltb;
  same = nat_beq;
  ratio = λ a b. if nat_beq b 1 then a else (a + b - 1) / b;
  add = ◌+◌;
  sub = ◌-◌;
  mul = ◌*◌;
  div = ◌/◌;
  remainder = ◌%◌;
  pow = ◌^◌;
  neg = λ a. a;
  min = min;
  max = max;
  abs = λ a. a;
  sqrt = λ a. a;
  sin = λ a. a;
  cos = λ a. 1;
  asin = λ a. a;
  acos = λ a. a;
  atan2 = λ y x. y;
  pi = 180;
  sqrt2 = 1;
  floor = λ a. a;
  round = λ a. a;
  trunc = λ a. a;
  to_text = λ a. a ∷ [];
  to_fixed = λ n a. a ∷ [];
  to_nat = λ a. a;
  le_trans = λ a b c h g. ground arith;
  le_refl = λ a h. ground arith;
  lt→le = λ a b h. ground arith;
  not_lt→le = λ a b f g h. ground arith;
  finite_literal = λ n h. refl;
  to_nat-le = λ x n h. ground arith;
  lt→not_le = λ a b h. ground arith;
  same→le = λ a b h. ground arith;
  same_refl = λ a h. ground arith;
  finite_abs = λ a h. refl;
}

-- The same numbers, on which every point projects onto the start of a leg.
abbrev pub near_numbers : Floats ℕ
near_numbers = record whole_numbers { asin = λ a. 0; acos = λ a. 0 }

-- A cache that never evicts.
abbrev pub map_cache : {V : Type 0} → Lru (JsMap Text V) V
map_cache = record {
  get = JsMap.get;
  touch = λ k c. c;
  set = JsMap.set;
  delete = JsMap.delete;
  clear = λ c. [];
  get-touch = λ k j c. refl;
  get-set_self = λ k v c. ground (arith, JsMap.get-set k k v c, text_beq_iff k k);
  get-set_ne = λ k j v w c n h. ground (arith, JsMap.get-set k j v c, text_beq_iff k j, n);
  get-delete_self = λ k c. ground (arith, JsMap.get-delete k k c, text_beq_iff k k);
  get-delete_ne = λ k j w c n h. ground (arith, JsMap.get-delete k j c, text_beq_iff k j, n);
  get-clear = λ k c. JsMap.get-empty k;
}

abbrev pub sample_cache : Lru (JsMap Text (Option ℕ)) (Option ℕ)
sample_cache = map_cache

abbrev pub sample_app : App
sample_app = record { clock = λ i. i ∷ []; deltas = [] }

abbrev pub empty_tracker : Tracker Text
empty_tracker = record { app = sample_app; active = [] }

abbrev pub at : ℕ → ℕ → Position ℕ
at latitude longitude = record { latitude = latitude; longitude = longitude }

abbrev pub sample_poi : Text → PoiType → Option ℕ → Position ℕ → PoiSummary ℕ
sample_poi id type clearance position = record {
  id = id;
  type = type;
  position = position;
  name = txt "Rock";
  source = txt "activecaptain";
  url = [];
  attribution = [];
  sources = none;
  rating = none;
  review_count = none;
  sk_icon = [];
  timestamp = none;
  vertical_clearance_meters = clearance;
}

pub empty-IsSynced : (cfg : TrackerConfig Text) → IsSynced cfg empty_tracker
unfolding alarming_on JsMap.get
empty-IsSynced cfg = record { keyed = λ k h. ground (arith, h); wire = λ k. refl }
