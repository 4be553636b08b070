-- ===== src/Controllers/Route.antt =====
-- A route of a controller: the verb of its decorator and its pattern, that of the class in front,
-- and the path that the pattern stands for with arguments for its parameters in their order.
use absolo_cloud_services.Base.{String, List, [], ◌∷◌}

pub data Segment : Type 0 where
  lit : String → Segment
  param : String → Segment

pub record Route : Type 0 where
  pub verb : String
  pub segments : List Segment

abbrev pub fill : List Segment → List String → List String
fill [] args = []
fill (lit s ∷ l) args = s ∷ fill l args
fill (param name ∷ l) [] = fill l []
fill (param name ∷ l) (a ∷ args) = a ∷ fill l args
