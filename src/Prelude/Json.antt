-- ===== src/Prelude/Json.antt =====
-- The values that the `to_dict` methods build and the `from_dict` functions read: Python's dicts
-- with text keys, lists, texts, numbers, booleans and None.
use Prim.Native.Nat.{ℕ}
use Prim.Native.String.{String}
use mathlib.Core.Bool.{Bool}
use mathlib.Core.Option.{Option, none, some}
use mathlib.Core.List.{List, [], ◌∷◌}
use text.Mathlib.Text.{◌==◌}
use invariantql.Prelude.Int.{ℤ}
use invariantql.Prelude.Tests.{if◌then◌else◌}

-- `float` holds the 64 bits of an IEEE double.
mutual
  pub data Json : Type 0 where
    null : Json
    bool : Bool → Json
    int : ℤ → Json
    float : ℕ → Json
    str : String → Json
    array : Items → Json
    dict : Entries → Json

  pub data Items : Type 0 where
    nil : Items
    cons : Json → Items → Items

  pub data Entries : Type 0 where
    end : Entries
    entry : String → Json → Entries → Entries

-- `data.get(key)` on a dict; `none` where the key is missing.
abbrev pub find : String → Entries → Option Json
find key end = none
find key (entry k v es) = if k == key then some v else find key es

abbrev pub texts : List String → Items
texts [] = nil
texts (s ∷ ss) = cons (str s) (texts ss)

-- `data.get(key, default)`.
abbrev pub find_or : String → Json → Entries → Json
find_or key missing es = elim (find key es) [ none ↦ missing | some v ↦ v ]
