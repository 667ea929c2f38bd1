-- ===== src/Coordinate/Tests.antt =====
-- Coordinate.hpp: the theorems at concrete coordinates.
use tt3d.Base.{ℕ, ◌≡◌, refl, [], ◌∷◌}
use tt3d.Coordinate.{Coordinate, undefined, at_unchecked, x, coordinate, found}

abbrev two : Coordinate ℕ
two = 7 ∷ 8 ∷ []

abbrev three : Coordinate ℕ
three = 7 ∷ 8 ∷ 9 ∷ []

-- A coordinate of the default constructor has no component that could be assigned.
default_coordinate : x (coordinate {A = ℕ}) ≡ undefined
unfolding x at_unchecked found
default_coordinate = refl
