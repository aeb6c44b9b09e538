-- ===== src/Shared/BboxDebounce.antt =====
-- src/shared/bbox-debounce.ts. A fetch has a number, its place in `fetches`; the fetch's promise is
-- what the cache holds. Its rejection is an event, which runs the `catch` block of the `get` that
-- started it. That an entry outlives its time is the event `expire`.
pub mod Laws
pub mod Keys
use signalk_activecaptain_re.Base.{
  ℕ, Bool, true, false, Option, none, some, List, [], ◌∷◌, ◌++◌, length, get_elem?, nat_beq,
  if◌then◌else◌,
}
use signalk_activecaptain_re.Base.Text.{Text, txt}
use signalk_activecaptain_re.Base.Float.{Floats, lit}
use signalk_activecaptain_re.Base.Lru.{Lru}
use signalk_activecaptain_re.Types.{Bbox, Value}
use signalk_activecaptain_re.Shared.Numbers.{clamp_number}

-- `replace` of every occurrence of a code unit.
abbrev pub replace_all : ℕ → Text → Text → Text
replace_all c t [] = []
replace_all c t (d ∷ s) = (if nat_beq d c then t else d ∷ []) ++ replace_all c t s

abbrev pub backslash : ℕ
backslash = 92

abbrev pub bar : ℕ
bar = b'|'

unfoldable pub escape_key : Text → Text
escape_key s =
    replace_all bar (backslash ∷ bar ∷ []) (replace_all backslash (backslash ∷ backslash ∷ []) s)

module _ {N : Type 0} ⦃F : Floats N⦄ where
  abbrev pub clamp_bbox_debounce_seconds : Value N → N
  clamp_bbox_debounce_seconds raw = clamp_number raw (lit 0) (lit 600) (lit 30) true

  unfoldable pub base_key : Bbox N → Text
  base_key bbox =
      F.to_fixed 4 bbox.south
      ++ (txt "_"
          ++ (F.to_fixed 4 bbox.west
              ++ (txt "_" ++ (F.to_fixed 4 bbox.north ++ (txt "_" ++ F.to_fixed 4 bbox.east)))))

  unfoldable pub bbox_key : Bbox N → Option Text → Text
  unfolding base_key escape_key
  bbox_key bbox none = base_key bbox
  bbox_key bbox (some extra) = base_key bbox ++ (bar ∷ escape_key extra)

-- The closure's cache, which is absent where the time is not positive, and the keys of the fetches
-- that were started.
pub record BboxDebounceCache (C : Type 0) : Type 0 where
  pub cache : Option C
  pub fetches : List Text

module _ {C : Type 0} (lru : Lru C ℕ) where
  abbrev started : Text → Option C → BboxDebounceCache C → ℕ × BboxDebounceCache C
  started key cache s =
      (length s.fetches, record { cache = cache; fetches = s.fetches ++ (key ∷ []) })

  abbrev request_with : Text → C → Option ℕ → BboxDebounceCache C → ℕ × BboxDebounceCache C
  request_with key c (some hit) s = (hit, record s { cache = some c })
  request_with key c none s = started key (some (lru.set key (length s.fetches) c)) s

  -- `get`, up to its `await`: the fetch that it waits for.
  unfoldable pub request : Text → BboxDebounceCache C → ℕ × BboxDebounceCache C
  request key s = elim s.cache [
    | none ↦ started key none s
    | some c ↦ request_with key (lru.touch key c) (lru.get key c) s
  ]

  abbrev pub evict_from : Text → ℕ → Option C → Option C
  evict_from key fetch none = none
  evict_from key fetch (some c) = elim (lru.get key c) [
    | none ↦ some (lru.touch key c)
    | some cached ↦
        if nat_beq cached fetch
        then some (lru.delete key (lru.touch key c))
        else some (lru.touch key c)
  ]

  abbrev evict_owned : ℕ → Option Text → BboxDebounceCache C → BboxDebounceCache C
  evict_owned fetch none s = s
  evict_owned fetch (some key) s = record s { cache = evict_from key fetch s.cache }

  -- The `catch` block, under the key of the `get` that started the fetch.
  unfoldable pub reject : ℕ → BboxDebounceCache C → BboxDebounceCache C
  reject fetch s = evict_owned fetch (get_elem? s.fetches fetch) s

  abbrev dropped : Text → Option C → Option C
  dropped key none = none
  dropped key (some c) = some (lru.delete key c)

  unfoldable pub expire : Text → BboxDebounceCache C → BboxDebounceCache C
  expire key s = record s { cache = dropped key s.cache }

  abbrev cleared : Option C → Option C
  cleared none = none
  cleared (some c) = some (lru.clear c)

  unfoldable pub clear : BboxDebounceCache C → BboxDebounceCache C
  clear s = record s { cache = cleared s.cache }
