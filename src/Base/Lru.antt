-- ===== src/Base/Lru.antt =====
-- The `LRUCache` of the package lru-cache, of which the program uses these operations. The package
-- is not part of the repository: its cache is a parameter, with the documented behaviour as laws.
use mathlib.Core.Path.{◌≡◌}
use mathlib.Core.Logic.{◌≢◌}
use mathlib.Core.Option.{Option, none, some}
use signalk_activecaptain_re.Base.Text.{Text}

-- `C` is the state of a cache of values `V`. An entry may be evicted at any write, and so a write
-- to one key promises of the others only that they hold no other value than before.
pub record Lru (C V : Type 0) : Type 0 where
  pub get : Text → C → Option V
  -- the recency that a `get` updates
  pub touch : Text → C → C
  pub set : Text → V → C → C
  pub delete : Text → C → C
  pub clear : C → C
  pub get-touch : (k j : Text) (c : C) → get j (touch k c) ≡ get j c
  pub get-set_self : (k : Text) (v : V) (c : C) → get k (set k v c) ≡ some v
  pub get-set_ne :
      (k j : Text) (v w : V) (c : C) → k ≢ j → get j (set k v c) ≡ some w → get j c ≡ some w
  pub get-delete_self : (k : Text) (c : C) → get k (delete k c) ≡ none
  pub get-delete_ne :
      (k j : Text) (w : V) (c : C) → k ≢ j → get j (delete k c) ≡ some w → get j c ≡ some w
  pub get-clear : (k : Text) (c : C) → get k (clear c) ≡ none
