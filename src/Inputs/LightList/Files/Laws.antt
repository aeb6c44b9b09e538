-- ===== src/Inputs/LightList/Files/Laws.antt =====
-- The page file of a page that was just upserted.
use signalk_activecaptain_re.Base.{
  ℕ, ◌≡◌, refl, ◌∙◌, Bool, true, false, ◌&&◌, not, Option, none, some, List, [], ◌∷◌, map, any,
  if◌then◌else◌, nat_beq, nat_beq_iff, arith,
}
use signalk_activecaptain_re.Base.Text.{Text, text_eq}
use signalk_activecaptain_re.Base.Equality.{nat_eq}
use signalk_activecaptain_re.Base.Float.{Floats}
use signalk_activecaptain_re.Base.JsMap
use signalk_activecaptain_re.Base.JsMap.{JsMap}
use signalk_activecaptain_re.Inputs.LightList.Store.{
  LightListRecord, DistrictHeaders, Store, upsert_page, previous_llnrs,
}
use signalk_activecaptain_re.Inputs.LightList.Store.Buckets.{or_else, find_last}
use signalk_activecaptain_re.Inputs.LightList.Store.Pages.{
  get-upsert_page, previous_llnrs-upsert_page,
}
use signalk_activecaptain_re.Inputs.LightList.Files.{look_up, page_records}

-- No two records of a page have one number.
abbrev pub distinct : {N : Type 0} → List (LightListRecord N) → Bool
distinct [] = true
distinct (r ∷ rs) = not (any (λ q. nat_beq q.llnr r.llnr) rs) && distinct rs

or_else_assoc : {A : Type 0} (a b c : Option A) → or_else (or_else a b) c ≡ or_else a (or_else b c)
or_else_assoc none b c = refl
or_else_assoc (some a) b c = refl

module _ {N : Type 0} where
  find_last-none :
      (j : ℕ) (rs : List (LightListRecord N))
      → any (λ q. nat_beq q.llnr j) rs ≡ false
      → find_last j rs ≡ none
  find_last-none j [] h = refl
  find_last-none j (r ∷ rs) h = ground (arith, find_last-none j rs)

  look_up_cong :
      (f g : ℕ → Option (LightListRecord N)) (ls : List ℕ)
      → ((j : ℕ) → f j ≡ g j)
      → look_up f ls ≡ look_up g ls
  unfolding look_up
  look_up_cong f g [] h = refl
  look_up_cong f g (l ∷ ls) h = rw (h l, look_up_cong f g ls h) refl

  look_up_last :
      (rs : List (LightListRecord N)) (h : ℕ → Option (LightListRecord N))
      → distinct rs ≡ true
      → look_up (λ j. or_else (find_last j rs) (h j)) (map (λ r. r.llnr) rs) ≡ rs
  unfolding look_up
  look_up_last [] h d = refl
  look_up_last (r ∷ rs) h d =
      let g = λ (j : ℕ). or_else (if nat_beq r.llnr j then some r else none) (h j) in
      let tail =
        look_up_cong (λ j. or_else (find_last j (r ∷ rs)) (h j))
          (λ j. or_else (find_last j rs) (g j)) (map (λ q. q.llnr) rs)
          (λ j. or_else_assoc (find_last j rs) (if nat_beq r.llnr j then some r else none) (h j))
        ∙ look_up_last rs g (ground (arith, d)) in
      rw tail (ground (arith, find_last-none r.llnr rs, nat_beq_iff r.llnr r.llnr))

module _ {N : Type 0} ⦃F : Floats N⦄ where
  -- The page file that a flush writes for a page is the list of the records that the page was just
  -- upserted with, in their order, where no two of them have one number.
  pub page_records-upsert_page :
      (now key : Text) (rs : List (LightListRecord N)) (headers : DistrictHeaders) (s : Store N)
      → distinct rs ≡ true
      → page_records key (upsert_page now key rs headers s) ≡ rs
  unfolding page_records
  page_records-upsert_page now key rs headers s d =
      let stored = upsert_page now key rs headers s in
      let before = previous_llnrs (JsMap.get key s.districts) in
      rw (previous_llnrs-upsert_page now key rs headers s) (
        look_up_cong (λ j. JsMap.get j stored.records)
          (λ j.
            or_else (find_last j rs)
              (if any (λ l. nat_beq l j) before then none else JsMap.get j s.records))
          (map (λ r. r.llnr) rs) (λ j. get-upsert_page now key rs headers s j)
        ∙ look_up_last rs
            (λ j. if any (λ l. nat_beq l j) before then none else JsMap.get j s.records) d)
