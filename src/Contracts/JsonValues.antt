-- ===== src/Contracts/JsonValues.antt =====
-- A value that JSON stands for, with the numbers that are natural, and the fields of an object.
use absolo_cloud_services.Base.{
  ℕ, String, Bool, true, ◌&&◌, Option, none, some, ◌==◌, List, ltb, count, if◌then◌else◌,
}

mutual
  pub data Value : Type 0 where
    obj : (fields : Fields) → Value
    arr : (items : Items) → Value
    str : (text : String) → Value
    num : (n : ℕ) → Value
    bool : (b : Bool) → Value
    null : Value

  -- The keys and values of an object, in their order.
  pub data Fields : Type 0 where
    field : (key : String) (value : Value) (more : Fields) → Fields
    end : Fields

  pub data Items : Type 0 where
    cons : (item : Value) (more : Items) → Items
    nil : Items

unfoldable pub lookup : String → Fields → Option Value
lookup k end = none
lookup k (field j v fs) = if j == k then some v else lookup k fs

-- `.strict()`: no other keys.
unfoldable pub only_keys : List String → Fields → Bool
only_keys known end = true
only_keys known (field j v fs) = ltb 0 (count (λ k. k == j) known) && only_keys known fs

-- A field that an object has if the value is defined.
abbrev pub maybe_field : String → Option Value → Fields → Fields
maybe_field k none fs = fs
maybe_field k (some v) fs = field k v fs
