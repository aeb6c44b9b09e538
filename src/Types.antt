-- ===== src/Types.antt =====
-- The shared data of src/shared/types.ts, and the values that arrive untyped (`unknown`).
use signalk_activecaptain_re.Base.{ℕ, Bool, List, Option, nat_beq, if◌then◌else◌}
use signalk_activecaptain_re.Base.Text.{Text, txt, text_eq}
use signalk_activecaptain_re.Base.Equality.{◌==◌}

pub data PoiType : Type 0 where
  marina anchorage hazard business boat_ramp bridge dam ferry inlet lock : PoiType
  local_knowledge navigational airport unknown : PoiType

-- `===` on the type names, which are distinct strings.
abbrev type_code : PoiType → ℕ
type_code PoiType.marina = 0
type_code PoiType.anchorage = 1
type_code PoiType.hazard = 2
type_code PoiType.business = 3
type_code PoiType.boat_ramp = 4
type_code PoiType.bridge = 5
type_code PoiType.dam = 6
type_code PoiType.ferry = 7
type_code PoiType.inlet = 8
type_code PoiType.lock = 9
type_code PoiType.local_knowledge = 10
type_code PoiType.navigational = 11
type_code PoiType.airport = 12
type_code PoiType.unknown = 13

abbrev pub poi_type_beq : PoiType → PoiType → Bool
poi_type_beq a b = nat_beq (type_code a) (type_code b)

-- The type's name, as it stands in messages.
unfoldable pub type_name : PoiType → Text
type_name PoiType.marina = txt "Marina"
type_name PoiType.anchorage = txt "Anchorage"
type_name PoiType.hazard = txt "Hazard"
type_name PoiType.business = txt "Business"
type_name PoiType.boat_ramp = txt "BoatRamp"
type_name PoiType.bridge = txt "Bridge"
type_name PoiType.dam = txt "Dam"
type_name PoiType.ferry = txt "Ferry"
type_name PoiType.inlet = txt "Inlet"
type_name PoiType.lock = txt "Lock"
type_name PoiType.local_knowledge = txt "LocalKnowledge"
type_name PoiType.navigational = txt "Navigational"
type_name PoiType.airport = txt "Airport"
type_name PoiType.unknown = txt "Unknown"

-- `Position`, over the number type of the run.
pub record Position (N : Type 0) : Type 0 where
  pub latitude : N
  pub longitude : N

pub record Bbox (N : Type 0) : Type 0 where
  pub north : N
  pub south : N
  pub east : N
  pub west : N

pub record PoiSummary (N : Type 0) : Type 0 where
  pub id : Text
  pub type : PoiType
  pub position : Position N
  pub name : Text
  pub source : Text
  pub url : Text
  pub attribution : Text
  pub sources : Option (List Text)
  pub rating : Option N
  pub review_count : Option N
  pub sk_icon : Text
  pub timestamp : Option Text
  pub vertical_clearance_meters : Option N

pub record PoiDetailView (N : Type 0) : Type 0 where
  pub name : Text
  pub position : Position N
  pub type : PoiType
  pub url : Text
  pub source : Text
  pub attribution : Text
  pub description : Option Text
  pub timestamp : Option Text
  pub sk_icon : Text
  pub vertical_clearance_meters : Option N

-- A value of unknown shape: what `JSON.parse`, the data model or a configuration file can hand over.
mutual
  pub data Value (N : Type 0) : Type 0 where
    undefined : Value N
    null : Value N
    bool : Bool → Value N
    num : N → Value N
    str : Text → Value N
    arr : Items N → Value N
    obj : Fields N → Value N

  pub data Items (N : Type 0) : Type 0 where
    nil : Items N
    cons : Value N → Items N → Items N

  pub data Fields (N : Type 0) : Type 0 where
    end : Fields N
    field : Text → Value N → Fields N → Fields N

abbrev find_field : {N : Type 0} → Text → Fields N → Value N
find_field k end = undefined
find_field k (field j v fs) = if j == k then v else find_field k fs

-- `value.key`, which is `undefined` when the key is absent.
abbrev pub property_of : {N : Type 0} → Text → Value N → Value N
property_of k (obj fs) = find_field k fs
property_of k _ = undefined
