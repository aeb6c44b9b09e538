-- ===== src/Plugin/Schema.antt =====
-- src/plugin/plugin-config.ts: the configuration schema that the modules' fragments make up.
pub mod Laws
use signalk_activecaptain_re.Base.{
  Bool, true, false, ◌&&◌, ◌||◌, not, List, [], ◌∷◌, ◌++◌, any, if◌then◌else◌,
}
use signalk_activecaptain_re.Base.Text.{Text, txt, text_eq, text_beq_iff, text_beq}
use signalk_activecaptain_re.Base.JsMap
use signalk_activecaptain_re.Base.JsMap.{JsMap}
use signalk_activecaptain_re.Types.{Value, Fields, field, end}

-- The `type` is always `object`.
pub record PluginSchema (N : Type 0) : Type 0 where
  pub title : Text
  pub description : Text
  pub required : List Text
  pub properties : JsMap Text (Value N)

abbrev pub required_properties : List Text
required_properties = txt "cachingDurationMinutes" ∷ []

-- What every object literal inherits, and `in` finds.
abbrev object_prototype : List Text
object_prototype =
    txt "constructor"
    ∷ txt "hasOwnProperty"
    ∷ txt "isPrototypeOf"
    ∷ txt "propertyIsEnumerable"
    ∷ txt "toLocaleString"
    ∷ txt "toString"
    ∷ txt "valueOf"
    ∷ txt "__proto__"
    ∷ txt "__defineGetter__"
    ∷ txt "__defineSetter__"
    ∷ txt "__lookupGetter__"
    ∷ txt "__lookupSetter__"
    ∷ []

unfoldable pub inherited : Text → Bool
inherited key = any (λ k. text_beq k key) object_prototype

-- The merged properties, or the key of the error.
pub data Merged (N : Type 0) : Type 0 where
  merged : JsMap Text (Value N) → Merged N
  duplicate : Text → Merged N

pub data Assembled (N : Type 0) : Type 0 where
  assembled : PluginSchema N → Assembled N
  duplicate_property : Text → Assembled N
  undeclared_property : Text → Assembled N

module _ {N : Type 0} where
  -- `key in properties`
  abbrev pub is_in : Text → JsMap Text (Value N) → Bool
  is_in key properties = inherited key || JsMap.has key properties

  -- `Object.entries`
  abbrev pub entries : Fields N → JsMap Text (Value N)
  entries end = []
  entries (field k v fs) = (k, v) ∷ entries fs

  -- The inner loop.
  unfoldable pub merge_entries : JsMap Text (Value N) → JsMap Text (Value N) → Merged N
  merge_entries [] properties = merged properties
  merge_entries ((key, value) ∷ rest) properties =
      let others = merge_entries rest (JsMap.set key value properties) in
      if is_in key properties then duplicate key else others

  -- The outer loop.
  unfoldable pub merge_fragments : List (Fields N) → JsMap Text (Value N) → Merged N
  merge_fragments [] properties = merged properties
  merge_fragments (fragment ∷ rest) properties =
      elim (merge_entries (entries fragment) properties) [
        | duplicate key ↦ duplicate key
        | merged more ↦ merge_fragments rest more
      ]

  -- The loop over the required keys.
  abbrev pub check_required : Text → Text → List Text → JsMap Text (Value N) → Assembled N
  check_required title description [] properties = assembled (record {
    title = title;
    description = description;
    required = required_properties;
    properties = properties;
  })
  check_required title description (key ∷ keys) properties =
      let others = check_required title description keys properties in
      if is_in key properties then others else undeclared_property key

  unfoldable pub assemble_plugin_schema : Text → Text → List (Fields N) → Assembled N
  unfolding merge_fragments
  assemble_plugin_schema title description fragments = elim (merge_fragments fragments []) [
    | duplicate key ↦ duplicate_property key
    | merged properties ↦ check_required title description required_properties properties
  ]
