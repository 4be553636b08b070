-- ===== src/Schema/Json.antt =====
-- The `jsonb` values that the services store: objects of flat values, and what a third party
-- sent, as the text that it came in.
use absolo_cloud_services.Base.{ℕ, String, Bool, List}

pub data Value : Type 0 where
  null : Value
  str : String → Value
  num : ℕ → Value
  bool : Bool → Value
  strings : List String → Value

pub data Json : Type 0 where
  object : List (String × Value) → Json
  raw : String → Json
