-- ===== src/Plugin/Schema/Laws.antt =====
-- When the schema is assembled, and what it then holds.
use signalk_activecaptain_re.Base.{
  ◌≡◌, refl, sym, ◌∙◌, ap, ◌↔◌, Bool, true, false, ◌&&◌, ◌||◌, not, List, [], ◌∷◌, ◌++◌, all, arith,
  Bool-cases, inl, inr,
}
use mathlib.Core.List.{append_assoc, append-nil}
use signalk_activecaptain_re.Base.Text.{Text, txt, text_eq, text_beq_iff, text_beq}
use signalk_activecaptain_re.Base.JsMap
use signalk_activecaptain_re.Base.JsMap.{JsMap}
use signalk_activecaptain_re.Types.{Value, Fields}
use signalk_activecaptain_re.Plugin.Schema.{
  Merged, merged, duplicate, Assembled, assembled, duplicate_property, PluginSchema,
  required_properties, inherited, is_in, entries, merge_entries, merge_fragments, check_required,
  assemble_plugin_schema,
}

module _ {N : Type 0} where
  -- All entries of the fragments, in order.
  abbrev pub all_entries : List (Fields N) → JsMap Text (Value N)
  all_entries [] = []
  all_entries (fragment ∷ rest) = entries fragment ++ all_entries rest

  abbrev pub none_inherited : JsMap Text (Value N) → Bool
  none_inherited ps = all (λ p. not (inherited p.0)) ps

  set_fresh :
      (k : Text) (v : Value N) (m : JsMap Text (Value N))
      → JsMap.has k m ≡ false
      → JsMap.set k v m ≡ m ++ ((k, v) ∷ [])
  unfolding JsMap.get JsMap.set
  set_fresh k v [] h = refl
  set_fresh k v ((j, w) ∷ m) h = elim (Bool-cases (text_beq j k)) [
    | inl e ↦ ground (arith, e, h)
    | inr e ↦ rw e (ap (λ (r : JsMap Text (Value N)). (j, w) ∷ r) (set_fresh k v m (rw e at h)))
  ]

  abbrev and_then : JsMap Text (Value N) → Merged N → Merged N
  and_then ys (duplicate key) = duplicate key
  and_then ys (merged more) = merge_entries ys more

  merge_entries-append :
      (xs ys m : JsMap Text (Value N))
      → merge_entries (xs ++ ys) m ≡ and_then ys (merge_entries xs m)
  unfolding merge_entries
  merge_entries-append [] ys m = refl
  merge_entries-append ((k, v) ∷ xs) ys m = elim (Bool-cases (is_in k m)) [
    | inl e ↦ rw (e, merge_entries) refl
    | inr e ↦ rw (e, merge_entries) (merge_entries-append xs ys (JsMap.set k v m))
  ]

  merge_fragments-all_entries :
      (fs : List (Fields N)) (m : JsMap Text (Value N))
      → merge_fragments fs m ≡ merge_entries (all_entries fs) m
  unfolding merge_fragments merge_entries
  merge_fragments-all_entries [] m = refl
  merge_fragments-all_entries (f ∷ fs) m =
      then_rest (λ more. merge_fragments-all_entries fs more) (merge_entries (entries f) m)
      ∙ sym (merge_entries-append (entries f) (all_entries fs) m)
    where
      then_rest :
          ((more : JsMap Text (Value N))
            → merge_fragments fs more ≡ merge_entries (all_entries fs) more)
          → (r : Merged N)
          → (elim r [ duplicate key ↦ duplicate key | merged more ↦ merge_fragments fs more ])
            ≡ and_then (all_entries fs) r
      then_rest ih (duplicate key) = refl
      then_rest ih (merged more) = ih more

  has-append :
      (k : Text) (xs ys : JsMap Text (Value N))
      → JsMap.has k (xs ++ ys) ≡ (JsMap.has k xs || JsMap.has k ys)
  unfolding JsMap.get
  has-append k [] ys = refl
  has-append k ((j, v) ∷ xs) ys = ground (arith, has-append k xs ys)

  distinct_keys-apart :
      (k : Text) (v : Value N) (m xs : JsMap Text (Value N))
      → JsMap.distinct_keys (m ++ ((k, v) ∷ xs)) ≡ true
      → JsMap.has k m ≡ false
  unfolding JsMap.get
  distinct_keys-apart k v [] xs h = refl
  distinct_keys-apart k v ((j, w) ∷ m) xs h = ground (
    arith,
    h,
    has-append j m ((k, v) ∷ xs),
    text_beq_iff j k,
    text_beq_iff k j,
    distinct_keys-apart k v m xs,
  )

  merge_entries-distinct :
      (xs m : JsMap Text (Value N))
      → JsMap.distinct_keys (m ++ xs) ≡ true
      → none_inherited xs ≡ true
      → merge_entries xs m ≡ merged (m ++ xs)
  unfolding merge_entries
  merge_entries-distinct [] m h g = ap merged (sym (append-nil m))
  merge_entries-distinct ((k, v) ∷ xs) m h g =
      let apart = distinct_keys-apart k v m xs h in
      let same = append_assoc m ((k, v) ∷ []) xs in
      let outside : is_in k m ≡ false = ground (arith, apart, g) in
      rw (outside, merge_entries)
        (rw (set_fresh k v m apart) (
          merge_entries-distinct xs (m ++ ((k, v) ∷ [])) (ap JsMap.distinct_keys same ∙ h)
            (ground (arith, g))
          ∙ ap merged same))

  -- What merging gives, when it ends without an error.
  pub record IsMerged (xs m r : JsMap Text (Value N)) : Type 0 where
    pub entries : r ≡ m ++ xs
    pub distinct : JsMap.distinct_keys r ≡ true
    pub own : none_inherited xs ≡ true

  merged-IsMerged :
      (xs m r : JsMap Text (Value N))
      → JsMap.distinct_keys m ≡ true
      → merge_entries xs m ≡ merged r
      → IsMerged xs m r
  unfolding merge_entries
  merged-IsMerged [] m r d h =
      let same : m ≡ r = cc h in
      record {
        entries = sym (append-nil m ∙ same);
        distinct = ap JsMap.distinct_keys (sym same) ∙ d;
        own = refl;
      }
  merged-IsMerged ((k, v) ∷ xs) m r d h = elim (Bool-cases (is_in k m)) [
    | inl e ↦ ground (arith, e, h)
    | inr e ↦
        let rest =
          merged-IsMerged xs (JsMap.set k v m) r (JsMap.distinct_keys-set k v m d)
            (rw (e, merge_entries) at h) in
        let apart : JsMap.has k m ≡ false = ground (arith, e) in
        record {
          entries =
              rest.entries
              ∙ (ap (λ (l : JsMap Text (Value N)). l ++ xs) (set_fresh k v m apart)
                  ∙ append_assoc m ((k, v) ∷ []) xs);
          distinct = rest.distinct;
          own = ground (arith, e, rest.own);
        }
  ]

  abbrev pub schema_of : Text → Text → List (Fields N) → PluginSchema N
  schema_of title description fragments = record {
    title = title;
    description = description;
    required = required_properties;
    properties = all_entries fragments;
  }

  -- No key has two entries, none is one that every object inherits, and the required one is there.
  abbrev pub is_assembled : List (Fields N) → Bool
  is_assembled fragments =
      JsMap.distinct_keys (all_entries fragments)
      && (none_inherited (all_entries fragments)
          && is_in (txt "cachingDurationMinutes") (all_entries fragments))

  abbrev finish : Text → Text → Merged N → Assembled N
  finish title description (duplicate key) = duplicate_property key
  finish title description (merged ps) = check_required title description required_properties ps

  assemble-merge :
      (title description : Text) (fragments : List (Fields N))
      → assemble_plugin_schema title description fragments
        ≡ finish title description (merge_entries (all_entries fragments) [])
  unfolding assemble_plugin_schema
  assemble-merge title description fragments =
      then_finish (merge_fragments fragments [])
      ∙ ap (finish title description) (merge_fragments-all_entries fragments [])
    where
      then_finish :
          (r : Merged N)
          → (elim r [
            | duplicate key ↦ duplicate_property key
            | merged ps ↦ check_required title description required_properties ps
          ])
            ≡ finish title description r
      then_finish (duplicate key) = refl
      then_finish (merged ps) = refl

  module _ (title description : Text) (fragments : List (Fields N)) (s : PluginSchema N) where
    finish-declared :
        is_in (txt "cachingDurationMinutes") (all_entries fragments) ≡ true
        → finish title description (merged (all_entries fragments))
          ≡ assembled (schema_of title description fragments)
    finish-declared e = rw e refl

    finish-assembled :
        finish title description (merged (all_entries fragments)) ≡ assembled s
        → (is_in (txt "cachingDurationMinutes") (all_entries fragments) ≡ true)
          × (s ≡ schema_of title description fragments)
    finish-assembled h =
        elim (Bool-cases (is_in (txt "cachingDurationMinutes") (all_entries fragments))) [
          | inl e ↦ (e, cc (sym h ∙ finish-declared e))
          | inr e ↦ ground (arith, e, h)
        ]

    finish-is_assembled :
        (r : Merged N)
        → merge_entries (all_entries fragments) [] ≡ r
        → finish title description r ≡ assembled s
        → (is_assembled fragments ≡ true) × (s ≡ schema_of title description fragments)
    finish-is_assembled (duplicate key) e h = cc h
    finish-is_assembled (merged ps) e h =
        let m = merged-IsMerged (all_entries fragments) [] ps refl e in
        let same : ps ≡ all_entries fragments = m.entries in
        let (declared, schema) =
          finish-assembled (
            ap (λ (l : JsMap Text (Value N)). finish title description (merged l)) (sym same)
            ∙ h) in
        (ground (arith, ap JsMap.distinct_keys (sym same) ∙ m.distinct, m.own, declared), schema)

    -- The assembly gives a schema exactly when the keys of all fragments are distinct, none is
    -- inherited by every object, and the required one is declared; its properties are then the
    -- entries of the fragments in order, with the given title and description.
    pub assemble_plugin_schema-assembled :
        (assemble_plugin_schema title description fragments ≡ assembled s)
        ↔ ((is_assembled fragments ≡ true) × (s ≡ schema_of title description fragments))
    assemble_plugin_schema-assembled = (
      λ h.
          finish-is_assembled (merge_entries (all_entries fragments) []) refl
            (sym (assemble-merge title description fragments) ∙ h),
      λ g.
          assemble-merge title description fragments
          ∙ (ap (finish title description) (
                merge_entries-distinct (all_entries fragments) [] (ground (arith, g.0))
                  (ground (arith, g.0)))
              ∙ (finish-declared (ground (arith, g.0)) ∙ ap assembled (sym g.1))),
    )
