-- ===== src/Notification/Tracker/Laws.antt =====
-- What `set`, `clear` and `clearAll` do to the tracked ids and to what a consumer sees.
use signalk_activecaptain_re.Base.{
  ◌≡◌, refl, ◌∙◌, true, false, ◌&&◌, not, List, [], ◌∷◌, ◌++◌, any, arith, if◌then◌else◌,
  Option-cases, inl, inr,
}
use signalk_activecaptain_re.Base.Text.{Text, text_eq, text_beq_iff}
use signalk_activecaptain_re.Base.Equality.{◌==◌}
use signalk_activecaptain_re.Base.JsMap
use signalk_activecaptain_re.Notification.Emitter.{
  NotificationValue, is_raised, now_iso, sanitize_poi_id, emit_notification, alarming_on,
}
use signalk_activecaptain_re.Notification.Emitter.Laws.{sanitize-sanitize, alarming_on-emit}
use signalk_activecaptain_re.Notification.Tracker.{
  TrackerConfig, Tracker, get, has, set, clear, clear_each, clear_all, IsSynced, ClearsNormal,
}

module _ {T : Type 0} where
  pub has_lem : (id : Text) (t : Tracker T) → has id t ≡ JsMap.has (sanitize_poi_id id) t.active
  unfolding get
  has_lem id t = refl

  pub has-set :
      (id j : Text) (entry : T) (t : Tracker T)
      → JsMap.has j (set id entry t).active
        ≡ (if sanitize_poi_id id == j then true else JsMap.has j t.active)
  unfolding set
  has-set id j entry t = ground (arith, JsMap.get-set (sanitize_poi_id id) j entry t.active)

  pub has-clear :
      (cfg : TrackerConfig T) (id j : Text) (t : Tracker T)
      → JsMap.has j (clear cfg id t).active
        ≡ (if sanitize_poi_id id == j then false else JsMap.has j t.active)
  unfolding clear
  has-clear cfg id j t =
      ground (
        arith,
        JsMap.get-delete (sanitize_poi_id id) j t.active,
        text_beq_iff (sanitize_poi_id id) j,
      )

  pub has-clear_each :
      (cfg : TrackerConfig T) (ks : List Text) (j : Text) (t : Tracker T)
      → JsMap.has j (clear_each cfg ks t).active
        ≡ (JsMap.has j t.active && not (any (λ k. sanitize_poi_id k == j) ks))
  unfolding clear_each
  has-clear_each cfg [] j t = ground arith
  has-clear_each cfg (k ∷ ks) j t =
      ground (arith, has-clear_each cfg ks j (clear cfg k t), has-clear cfg k j t)

  pub app-set : (id : Text) (entry : T) (t : Tracker T) → (set id entry t).app ≡ t.app
  unfolding set
  app-set id entry t = refl

  alarming_on-clear :
      (cfg : TrackerConfig T) (id j : Text) (t : Tracker T)
      → ClearsNormal cfg
      → alarming_on (cfg.path_prefix ++ j) (clear cfg id t).app.deltas ≡ (
          if JsMap.has (sanitize_poi_id id) t.active && sanitize_poi_id id == j
          then false
          else alarming_on (cfg.path_prefix ++ j) t.app.deltas)
  unfolding clear
  alarming_on-clear cfg id j t n = elim (Option-cases (JsMap.get (sanitize_poi_id id) t.active)) [
    | inl e ↦ rw (e, clear)
    | inr (entry, e) ↦
        let value = cfg.build_clear_value entry (now_iso t.app) in
        ground (
          arith,
          e,
          n entry (now_iso t.app),
          sanitize-sanitize id,
          alarming_on-emit t.app cfg.path_prefix (sanitize_poi_id id) j value cfg.source_suffix,
        )
  ]

  -- An emission and the write that goes with it keep the tracker in step with the consumer.
  pub raise-IsSynced :
      (cfg : TrackerConfig T) (id : Text) (entry : T) (value : NotificationValue) (t : Tracker T)
      → is_raised value.state ≡ true
      → IsSynced cfg t
      → IsSynced cfg (
          set id entry
            (record t { app = emit_notification t.app cfg.path_prefix id value cfg.source_suffix }))
  raise-IsSynced cfg id entry value t r s = record {
    keyed = λ k h. ground (
      arith,
      has-set id k entry
          (record t { app = emit_notification t.app cfg.path_prefix id value cfg.source_suffix }),
      text_beq_iff (sanitize_poi_id id) k,
      sanitize-sanitize id,
      s.keyed k,
    );
    wire = λ k. ground (
      arith,
      has-set id k entry
          (record t { app = emit_notification t.app cfg.path_prefix id value cfg.source_suffix }),
      alarming_on-emit t.app cfg.path_prefix id k value cfg.source_suffix,
      s.wire k,
      app-set id entry
          (record t { app = emit_notification t.app cfg.path_prefix id value cfg.source_suffix }),
    );
  }

  pub clear-IsSynced :
      (cfg : TrackerConfig T) (id : Text) (t : Tracker T)
      → ClearsNormal cfg
      → IsSynced cfg t
      → IsSynced cfg (clear cfg id t)
  clear-IsSynced cfg id t n s = record {
    keyed = λ k h. ground (arith, has-clear cfg id k t, s.keyed k);
    wire = λ k. ground (
      arith,
      has-clear cfg id k t,
      alarming_on-clear cfg id k t n,
      text_beq_iff (sanitize_poi_id id) k,
      s.wire k,
    );
  }

  pub clear_each-IsSynced :
      (cfg : TrackerConfig T) (ks : List Text) (t : Tracker T)
      → ClearsNormal cfg
      → IsSynced cfg t
      → IsSynced cfg (clear_each cfg ks t)
  unfolding clear_each
  clear_each-IsSynced cfg [] t n s = s
  clear_each-IsSynced cfg (k ∷ ks) t n s =
      clear_each-IsSynced cfg ks (clear cfg k t) n (clear-IsSynced cfg k t n s)

  pub clear_all-IsSynced :
      (cfg : TrackerConfig T) (t : Tracker T)
      → ClearsNormal cfg
      → IsSynced cfg t
      → IsSynced cfg (clear_all cfg t)
  unfolding clear_all
  clear_all-IsSynced cfg t n s = clear_each-IsSynced cfg (JsMap.keys t.active) t n s

  -- The keys of a tracker in step stand for themselves.
  any-sanitized :
      (cfg : TrackerConfig T) (ks : List Text) (j : Text)
      → any (λ k. k == j) ks ≡ true
      → sanitize_poi_id j ≡ j
      → any (λ k. sanitize_poi_id k == j) ks ≡ true
  any-sanitized cfg [] j h e = h
  any-sanitized cfg (k ∷ ks) j h e =
      ground (arith, text_beq_iff k j, text_beq_iff (sanitize_poi_id k) j, any-sanitized cfg ks j)

  -- For a tracker in step whose clear values are `normal`: `clearAll` empties it, and leaves no alarm
  -- of this output standing on the wire.
  pub clear_all_silences :
      (cfg : TrackerConfig T) (t : Tracker T)
      → ClearsNormal cfg
      → IsSynced cfg t
      → (k : Text)
      → (JsMap.has k (clear_all cfg t).active ≡ false)
        × (alarming_on (cfg.path_prefix ++ k) (clear_all cfg t).app.deltas ≡ false)
  unfolding clear_all
  clear_all_silences cfg t n s k =
      let keys = JsMap.keys t.active in
      let gone : JsMap.has k (clear_each cfg keys t).active ≡ false = ground (
        arith,
        has-clear_each cfg keys k t,
        JsMap.has-keys k t.active,
        any-sanitized cfg keys k,
        s.keyed k,
      ) in
      (gone, (clear_each-IsSynced cfg keys t n s).wire k ∙ gone)
