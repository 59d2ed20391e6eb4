-- ===== src/Stl/Vector/Tests.antt =====
-- The vector theorem at a vector that grows.
use dns_relay.Base.{[], ◌∷◌}
use dns_relay.Stl.Vector.{Vector, vector_create, vector_add}
use dns_relay.Stl.Vector.Refinement.{Holds, Refines, vector_create-Holds, vector-Refines}

abbrev one : Vector
one = vector_add (vector_create 1) 40

one-Holds : Holds one (40 ∷ [])
one-Holds = (vector-Refines (vector_create 1) [] (vector_create-Holds 1)).added 40

vector-Refines_example : Refines one (40 ∷ [])
vector-Refines_example = vector-Refines one (40 ∷ []) one-Holds
