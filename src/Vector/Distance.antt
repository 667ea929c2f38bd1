-- ===== src/Vector/Distance.antt =====
-- TwoDVector.hpp and Coordinate.hpp: the two headers measure distances alike.
use tt3d.Base.{◌≡◌}
use tt3d.Coordinate.{value, chain, Measure, coordinate_2, distance_2d, at_unchecked, found}
use tt3d.Coordinate
use tt3d.Coordinate.Axes.{distance-coordinate_2}
use tt3d.Vector.{TwoDVector, distance}

-- The distance of two vectors is that of the coordinates with the same components.
pub distance-coordinate :
    {A D : Type 0} (M : Measure A D) (a b : TwoDVector A)
    → Coordinate.distance M (coordinate_2 a.m_x a.m_y) (coordinate_2 b.m_x b.m_y)
      ≡ value (distance M a b)
unfolding distance
distance-coordinate M a b = distance-coordinate_2 M a.m_x a.m_y b.m_x b.m_y
