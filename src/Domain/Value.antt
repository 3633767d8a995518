-- ===== src/Domain/Value.antt =====
-- Go's `any`, as the source meets it: what `encoding/json` decodes a filter's value to, and what the
-- database driver hands back in a row. A float64 is its 64-bit pattern; a time is its nanoseconds.
use flooks.Common.{ℕ, String, Bool, false, Option, none, some, List, [], ◌∷◌}
use flooks.Common.Int.{ℤ}

mutual
  pub data Value : Type 0 where
    null : Value
    bool : Bool → Value
    float : ℕ → Value
    int : ℤ → Value
    str : String → Value
    arr : Items → Value
    obj : Fields → Value
    time : ℤ → Value
    bytes : List ℕ → Value

  pub data Items : Type 0 where
    nil : Items
    cons : Value → Items → Items

  pub data Fields : Type 0 where
    end : Fields
    field : String → Value → Fields → Fields

unfoldable pub items : Items → List Value
items nil = []
items (cons v vs) = v ∷ items vs

-- `values, ok := v.([]any)`
unfoldable pub as_array : Value → Option (List Value)
unfolding items
as_array (arr vs) = some (items vs)
as_array _ = none

-- `b, _ := v.(bool)`
unfoldable pub as_bool : Value → Bool
as_bool (bool b) = b
as_bool _ = false
