-- ===== src/Value.antt =====
-- The dynamic values (Go's `any`) that attributes hold, and `map[string]any` as an association list.
pub mod Laws
use tracewell.Prelude.{ℕ, ℤ, String, Bool, List, Option, none, some, str_eq, if◌then◌else◌}

-- A float64 is carried as its bit pattern; `int` and `int64` are told apart, as a type switch does.
mutual
  pub data Value : Type 0 where
    null : Value
    str : String → Value
    bool : Bool → Value
    int : ℤ → Value
    int64 : ℤ → Value
    float64 : ℕ → Value
    bytes : List ℕ → Value
    arr : Values → Value
    obj : Fields → Value

  pub data Values : Type 0 where
    nil : Values
    cons : Value → Values → Values

  pub data Fields : Type 0 where
    end : Fields
    field : String → Value → Fields → Fields

-- m[key], as the two-result form reads it
unfoldable pub lookup : String → Fields → Option Value
lookup k end = none
lookup k (field j v m) = if str_eq j k then some v else lookup k m

-- m[key] = v
unfoldable pub insert : String → Value → Fields → Fields
insert k v end = field k v end
insert k v (field j w m) = if str_eq j k then field k v m else field j w (insert k v m)
