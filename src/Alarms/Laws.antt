-- ===== src/Alarms/Laws.antt =====
-- After the two loops the tracker holds exactly what should be alarming, and a consumer sees it.
use signalk_activecaptain_re.Base.{
  ◌≡◌, refl, ◌∙◌, Bool, true, ◌&&◌, ◌||◌, not, List, [], ◌∷◌, any, all, arith, if◌then◌else◌,
  Bool-cases, inl, inr,
}
use signalk_activecaptain_re.Base.Text.{Text, text_eq, text_beq_iff}
use signalk_activecaptain_re.Base.Equality.{◌==◌}
use signalk_activecaptain_re.Base.JsMap
use signalk_activecaptain_re.Base.JsMap.{JsMap}
use signalk_activecaptain_re.Notification.Emitter.{sanitize_poi_id}
use signalk_activecaptain_re.Notification.Tracker
use signalk_activecaptain_re.Notification.Tracker.{Tracker, TrackerConfig, IsSynced, ClearsNormal}
use signalk_activecaptain_re.Notification.Tracker.Laws.{has_lem, has-clear, clear-IsSynced}
use signalk_activecaptain_re.Alarms.{raise_entries, clear_absent, settle}

module _ {E T : Type 0} (cfg : TrackerConfig T) where
  has-clear_absent :
      (m : JsMap Text E) (ks : List Text) (k : Text) (t : Tracker T)
      → JsMap.has k (clear_absent cfg m ks t).active ≡ (
          JsMap.has k t.active && not (any (λ j. sanitize_poi_id j == k && not (JsMap.has j m)) ks))
  unfolding clear_absent
  has-clear_absent m [] k t = ground arith
  has-clear_absent m (j ∷ ks) k t = elim (Bool-cases (JsMap.has j m)) [
    | inl e ↦ ground (arith, e, has-clear_absent m ks k t)
    | inr e ↦
        ground (arith, e, has-clear_absent m ks k (Tracker.clear cfg j t), has-clear cfg j k t)
  ]

  pub clear_absent-IsSynced :
      (m : JsMap Text E) (ks : List Text) (t : Tracker T)
      → ClearsNormal cfg
      → IsSynced cfg t
      → IsSynced cfg (clear_absent cfg m ks t)
  unfolding clear_absent
  clear_absent-IsSynced m [] t n s = s
  clear_absent-IsSynced m (j ∷ ks) t n s = elim (Bool-cases (JsMap.has j m)) [
    | inl e ↦ rw e (clear_absent-IsSynced m ks t n s)
    | inr e ↦
        rw e (clear_absent-IsSynced m ks (Tracker.clear cfg j t) n (clear-IsSynced cfg j t n s))
  ]

  -- Among keys that stand for themselves, the one that is cleared for `k` is `k`.
  any_absent :
      (m : JsMap Text E) (k : Text) (ks : List Text)
      → sanitize_poi_id k ≡ k
      → ((j : Text) → any (λ i. i == j) ks ≡ true → sanitize_poi_id j ≡ j)
      → any (λ j. sanitize_poi_id j == k && not (JsMap.has j m)) ks
        ≡ (any (λ j. j == k) ks && not (JsMap.has k m))
  any_absent m k [] e h = refl
  any_absent m k (i ∷ ks) e h = ground (
    arith,
    text_beq_iff i k,
    text_beq_iff (sanitize_poi_id i) k,
    h i (ground (arith, text_beq_iff i i)),
    any_absent m k ks e (λ j p. h j (ground arith)),
  )

  -- A sanitized id is left by the clear loop exactly when it is a key of the alarming ones, if all
  -- of those are tracked when the loop starts.
  pub has-clear_absent-keys :
      (m : JsMap Text E) (k : Text) (t : Tracker T)
      → IsSynced cfg t
      → sanitize_poi_id k ≡ k
      → (JsMap.has k m ≡ true → JsMap.has k t.active ≡ true)
      → JsMap.has k (clear_absent cfg m (JsMap.keys t.active) t).active ≡ JsMap.has k m
  has-clear_absent-keys m k t s e h = ground (
    arith,
    has-clear_absent m (JsMap.keys t.active) k t,
    any_absent m k (JsMap.keys t.active) e (λ j p. s.keyed j (JsMap.has-keys j t.active ∙ p)),
    JsMap.has-keys k t.active,
  )

  module _ (raise : Text → E → Tracker T → Tracker T)
      (adds : (id : Text) (entry : E) (t : Tracker T) (k : Text)
        → JsMap.has k (raise id entry t).active
          ≡ (if sanitize_poi_id id == k then true else JsMap.has k t.active)) where
    has-raise_entries :
        (m : JsMap Text E) (k : Text) (t : Tracker T)
        → JsMap.has k (raise_entries raise m t).active
          ≡ (JsMap.has k t.active || any (λ p. sanitize_poi_id p.0 == k) m)
    unfolding raise_entries
    has-raise_entries [] k t = ground arith
    has-raise_entries ((id, entry) ∷ m) k t = elim (Bool-cases (Tracker.has id t)) [
      | inl e ↦
          ground
            (arith, e, has_lem id t, has-raise_entries m k t, text_beq_iff (sanitize_poi_id id) k)
      | inr e ↦ ground (arith, e, has-raise_entries m k (raise id entry t), adds id entry t k)
    ]

    any_raised :
        (m : JsMap Text E) (k : Text)
        → sanitize_poi_id k ≡ k
        → JsMap.has k m ≡ true
        → any (λ p. sanitize_poi_id p.0 == k) m ≡ true
    unfolding JsMap.get
    any_raised [] k e h = h
    any_raised ((id, entry) ∷ m) k e h =
        ground (arith, text_beq_iff id k, text_beq_iff (sanitize_poi_id id) k, any_raised m k e)

    module _
        (keeps : (id : Text) (entry : E) (t : Tracker T)
          → IsSynced cfg t
          → IsSynced cfg (raise id entry t)) where
      raise_entries-IsSynced :
          (m : JsMap Text E) (t : Tracker T)
          → IsSynced cfg t
          → IsSynced cfg (raise_entries raise m t)
      unfolding raise_entries
      raise_entries-IsSynced [] t s = s
      raise_entries-IsSynced ((id, entry) ∷ m) t s = elim (Bool-cases (Tracker.has id t)) [
        | inl e ↦ rw e (raise_entries-IsSynced m t s)
        | inr e ↦ rw e (raise_entries-IsSynced m (raise id entry t) (keeps id entry t s))
      ]

      pub settle-IsSynced :
          (m : JsMap Text E) (t : Tracker T)
          → ClearsNormal cfg
          → IsSynced cfg t
          → IsSynced cfg (settle raise cfg m t)
      unfolding settle
      settle-IsSynced m t n s =
          clear_absent-IsSynced m (JsMap.keys (raise_entries raise m t).active)
            (raise_entries raise m t) n (raise_entries-IsSynced m t s)

      -- A sanitized id is tracked after the loops exactly when it is a key of the alarming ones.
      pub has-settle :
          (m : JsMap Text E) (k : Text) (t : Tracker T)
          → IsSynced cfg t
          → sanitize_poi_id k ≡ k
          → JsMap.has k (settle raise cfg m t).active ≡ JsMap.has k m
      unfolding settle
      has-settle m k t s e =
          has-clear_absent-keys m k (raise_entries raise m t) (raise_entries-IsSynced m t s) e
            (λ h. ground (arith, has-raise_entries m k t, any_raised m k e h))

-- Where all that is in alarm is tracked and all that is tracked is in alarm, nothing is emitted.
module _ {E T : Type 0} (cfg : TrackerConfig T) (raise : Text → E → Tracker T → Tracker T) where
  raise_entries-same :
      (m : JsMap Text E) (t : Tracker T)
      → all (λ k. Tracker.has k t) (JsMap.keys m) ≡ true
      → raise_entries raise m t ≡ t
  unfolding raise_entries
  raise_entries-same [] t h = refl
  raise_entries-same ((id, entry) ∷ m) t h = elim (Bool-cases (Tracker.has id t)) [
    | inl e ↦ rw e (raise_entries-same m t (ground (arith, e)))
    | inr e ↦ absurd (ground (arith, e))
  ]

  clear_absent-same :
      (m : JsMap Text E) (ks : List Text) (t : Tracker T)
      → all (λ k. JsMap.has k m) ks ≡ true
      → clear_absent cfg m ks t ≡ t
  unfolding clear_absent
  clear_absent-same m [] t h = refl
  clear_absent-same m (k ∷ ks) t h = elim (Bool-cases (JsMap.has k m)) [
    | inl e ↦ rw e (clear_absent-same m ks t (ground (arith, e)))
    | inr e ↦ absurd (ground (arith, e))
  ]

  pub settle-same :
      (m : JsMap Text E) (t : Tracker T)
      → all (λ k. Tracker.has k t) (JsMap.keys m) ≡ true
      → all (λ k. JsMap.has k m) (JsMap.keys t.active) ≡ true
      → settle raise cfg m t ≡ t
  unfolding settle
  settle-same m t h g =
      rw (raise_entries-same m t h) (clear_absent-same m (JsMap.keys t.active) t g)

-- A test holds of every key when it holds of every text that is a key.
pub all_keys :
    (P : Text → Bool) (ks : List Text)
    → ((k : Text) → any (λ j. j == k) ks ≡ true → P k ≡ true)
    → all P ks ≡ true
all_keys P [] h = refl
all_keys P (k ∷ ks) h =
    ground
      (arith, h k (ground (arith, text_beq_iff k k)), all_keys P ks (λ j p. h j (ground arith)))
