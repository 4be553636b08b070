-- ===== src/Runtime/Tables/Checks.antt =====
-- The tests in the references and indexes of the tables.
use absolo_cloud_services.Base.{
  String, Bool, true, false, Option, none, some, List, ◌==◌, head?, filter, is_some,
}

-- Whether a row passes.
abbrev pub found : {Row : Type 0} → (Row → Bool) → List Row → Bool
found p l = is_some (head? (filter p l))

-- A nullable reference.
abbrev pub null_or : (String → Bool) → Option String → Bool
null_or p none = true
null_or p (some a) = p a

-- Two nullable columns with the same value: in a unique index nulls are distinct.
abbrev pub both_some_eq : Option String → Option String → Bool
both_some_eq none b = false
both_some_eq (some a) none = false
both_some_eq (some a) (some b) = a == b
