-- ===== src/Inputs/NoaaEnc/Laws.antt =====
-- The ids and the positions of the listed features.
use signalk_activecaptain_re.Base.{
  ◌≡◌, refl, ap, sym, ◌∙◌, Bool, true, ◌&&◌, ◌||◌, not, Option, none, some, List, [], ◌∷◌, ◌++◌,
  all, filter, arith, Bool-cases, inl, inr,
}
use signalk_activecaptain_re.Base.Text.{Text, txt, text_beq}
use signalk_activecaptain_re.Base.Float.{Floats, lit}
use signalk_activecaptain_re.Base.Lru.{Lru}
use signalk_activecaptain_re.Types.{
  Position, PoiSummary, Value, num, str, undefined, null, bool, arr, obj,
}
use signalk_activecaptain_re.Shared.Numbers.{is_valid_latitude, is_valid_longitude}
use signalk_activecaptain_re.Shared.NamespacedId.{split_on_first_underscore}
use signalk_activecaptain_re.Shared.NamespacedId.Laws.{split-join}
use signalk_activecaptain_re.Shared.YearFilter.{filter_by_minimum_year, is_on_or_after}
use signalk_activecaptain_re.Inputs.NoaaEnc.Mapping.{
  EncLayerKey, wreck, obstruction, rock, key_text,
}
use signalk_activecaptain_re.Inputs.NoaaEnc.Listing.{
  add_summary, add_features, add_layers, finish_list, NoaaEncSource,
}
use signalk_activecaptain_re.Inputs.NoaaEnc.Source.{
  EncFeature, CachedFeature, feature_lat_lon, feature_object_id, position_with, summary_at,
  summary_id, parse_summary_id, to_summary, layer_of,
}

module _ {N : Type 0} ⦃F : Floats N⦄ where
  module _ (parse_int : Text → N) where
    split-summary_id :
        (layer_key : EncLayerKey) (object_id : N)
        → split_on_first_underscore (summary_id layer_key object_id)
          ≡ some (key_text layer_key, F.to_text object_id)
    unfolding split_on_first_underscore
    split-summary_id wreck n = split-join b'_' b'w' (txt "reck") (F.to_text n) refl
    split-summary_id obstruction n = split-join b'_' b'o' (txt "bstruction") (F.to_text n) refl
    split-summary_id rock n = split-join b'_' b'r' (txt "ock") (F.to_text n) refl

    layer_of-key_text : (layer_key : EncLayerKey) → layer_of (key_text layer_key) ≡ some layer_key
    unfolding text_beq
    layer_of-key_text wreck = refl
    layer_of-key_text obstruction = refl
    layer_of-key_text rock = refl

    -- Of a finite object id that the language prints and reads back as the same number: the id that
    -- a summary gets is parsed into the layer and the object id that it was made of.
    pub parse_summary_id-summary_id :
        (layer_key : EncLayerKey) (object_id : N)
        → F.is_finite object_id ≡ true
        → parse_int (F.to_text object_id) ≡ object_id
        → parse_summary_id parse_int (summary_id layer_key object_id) ≡ some (layer_key, object_id)
    unfolding parse_summary_id
    parse_summary_id-summary_id layer_key n f p =
        rw (split-summary_id layer_key n, parse_summary_id)
          (rw (layer_of-key_text layer_key) (rw p (rw f refl)))

  -- The coordinates are finite, and on the globe.
  abbrev pub on_globe : Position N → Bool
  on_globe p =
      (F.is_finite p.latitude && (F.le (F.neg (lit 90)) p.latitude && F.le p.latitude (lit 90)))
      && (F.is_finite p.longitude
          && (F.le (F.neg (lit 180)) p.longitude && F.le p.longitude (lit 180)))

  latitude-valid :
      (v : Value N) (x : N)
      → is_valid_latitude v ≡ some x
      → (F.is_finite x && (F.le (F.neg (lit 90)) x && F.le x (lit 90))) ≡ true
  unfolding is_valid_latitude
  latitude-valid (num y) x h = ground (arith, h)
  latitude-valid undefined x h = cc h
  latitude-valid null x h = cc h
  latitude-valid (bool b) x h = cc h
  latitude-valid (str t) x h = cc h
  latitude-valid (arr items) x h = cc h
  latitude-valid (obj fields) x h = cc h

  longitude-valid :
      (v : Value N) (x : N)
      → is_valid_longitude v ≡ some x
      → (F.is_finite x && (F.le (F.neg (lit 180)) x && F.le x (lit 180))) ≡ true
  unfolding is_valid_longitude
  longitude-valid (num y) x h = ground (arith, h)
  longitude-valid undefined x h = cc h
  longitude-valid null x h = cc h
  longitude-valid (bool b) x h = cc h
  longitude-valid (str t) x h = cc h
  longitude-valid (arr items) x h = cc h
  longitude-valid (obj fields) x h = cc h

  position_with-on_globe :
      (lat lon : Value N) (a b : Option N) (p : Position N)
      → is_valid_latitude lat ≡ a
      → is_valid_longitude lon ≡ b
      → position_with a b ≡ some p
      → on_globe p ≡ true
  position_with-on_globe lat lon none b p e f h = cc h
  position_with-on_globe lat lon (some x) none p e f h = cc h
  position_with-on_globe lat lon (some x) (some y) p e f h =
      let same : record { latitude = x; longitude = y } ≡ p = cc h in
      ap on_globe (sym same) ∙ ground (arith, latitude-valid lat x e, longitude-valid lon y f)

  coordinates-on_globe :
      (c : Option (Value N × Value N)) (feature : EncFeature N) (p : Position N)
      → feature.coordinates ≡ c
      → feature_lat_lon feature ≡ some p
      → on_globe p ≡ true
  unfolding feature_lat_lon
  coordinates-on_globe none feature p e = rw (e, feature_lat_lon) (λ h. cc h)
  coordinates-on_globe (some (lon, lat)) feature p e =
      rw (e, feature_lat_lon)
        (position_with-on_globe lat lon (is_valid_latitude lat) (is_valid_longitude lon) p refl
          refl)

  abbrev pub all_on_globe : List (PoiSummary N) → Bool
  all_on_globe pois = all (λ poi. on_globe poi.position) pois

  all_on_globe-append :
      (xs : List (PoiSummary N)) (poi : PoiSummary N)
      → all_on_globe xs ≡ true
      → on_globe poi.position ≡ true
      → all_on_globe (xs ++ (poi ∷ [])) ≡ true
  all_on_globe-append [] poi h g = ground (arith, g)
  all_on_globe-append (x ∷ xs) poi h g =
      ground (arith, h, all_on_globe-append xs poi (ground (arith, h)) g)

  all_on_globe-filter :
      (q : PoiSummary N → Bool) (xs : List (PoiSummary N))
      → all_on_globe xs ≡ true
      → all_on_globe (filter q xs) ≡ true
  all_on_globe-filter q [] h = refl
  all_on_globe-filter q (x ∷ xs) h = ground (arith, h, all_on_globe-filter q xs (ground (arith, h)))

  module _ {D : Type 0} (lru : Lru D (CachedFeature N)) (parse_int : Text → N) (utc : N → N → N → N)
      (iso : N → Text) where
    add_summary-on_globe :
        (k : EncLayerKey) (f : EncFeature N) (id : Option N) (at : Option (Position N))
        (s : List (PoiSummary N) × D)
        → feature_lat_lon f ≡ at
        → all_on_globe s.0 ≡ true
        → all_on_globe
            (add_summary lru parse_int utc iso k f (summary_at parse_int utc iso k f id at) s).0
          ≡ true
    add_summary-on_globe k f none at s e h = h
    add_summary-on_globe k f (some n) none s e h = h
    add_summary-on_globe k f (some n) (some p) s e h =
        all_on_globe-append s.0 _ h (coordinates-on_globe f.coordinates f p refl e)

    add_features-on_globe :
        (k : EncLayerKey) (fs : List (EncFeature N)) (s : List (PoiSummary N) × D)
        → all_on_globe s.0 ≡ true
        → all_on_globe (add_features lru parse_int utc iso k fs s).0 ≡ true
    unfolding add_features to_summary
    add_features-on_globe k [] s h = h
    add_features-on_globe k (f ∷ fs) s h =
        add_features-on_globe k fs _
          (add_summary-on_globe k f (feature_object_id f) (feature_lat_lon f) s refl h)

    add_layers-on_globe :
        (ls : List (EncLayerKey × List (EncFeature N))) (s : List (PoiSummary N) × D)
        → all_on_globe s.0 ≡ true
        → all_on_globe (add_layers lru parse_int utc iso ls s).0 ≡ true
    unfolding add_layers
    add_layers-on_globe [] s h = h
    add_layers-on_globe ((k, fs) ∷ ls) s h =
        add_layers-on_globe ls _ (add_features-on_globe k fs s h)

    -- Whatever features the layers answer, every point that a list request answers has finite
    -- coordinates, a latitude within 90 and a longitude within 180 degrees of zero.
    pub finish_list-on_globe :
        {C : Type 0} (parse_date : Text → N) (utc_year : N → N) (minimum_year : N)
        (cached : List (EncLayerKey × List (EncFeature N))) (s : NoaaEncSource C D)
        → all_on_globe
            (finish_list lru parse_int utc iso parse_date utc_year minimum_year cached s).0
          ≡ true
    unfolding finish_list filter_by_minimum_year
    finish_list-on_globe parse_date utc_year minimum_year cached s =
        let all_listed = add_layers-on_globe cached ([], s.cache) refl in
        elim (Bool-cases (not (F.is_finite minimum_year) || F.le minimum_year (lit 0))) [
          | inl e ↦ rw (e, finish_list, filter_by_minimum_year) all_listed
          | inr e ↦
              rw (e, finish_list, filter_by_minimum_year)
                (all_on_globe-filter
                  (λ poi. is_on_or_after parse_int parse_date utc_year poi.timestamp minimum_year) _
                  all_listed)
        ]
