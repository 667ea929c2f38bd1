-- ===== src/Coordinate/Sample.antt =====
-- A measure in which theorems about distances are instantiated.
use tt3d.Base.{ℕ, ◌+◌, ◌-◌, ◌*◌, ◌≡◌, refl, [], ◌∷◌}
use tt3d.Coordinate.{Measure, distance, distance_from, get, chain, value}

-- Distances before the square root, over differences of natural numbers.
abbrev pub plane : Measure ℕ ℕ
plane = record {
  minus = λ m n. (m - n) + (n - m);
  magnitude = λ m. m;
  to_double = λ m. m;
  zero = 0;
  plus = ◌+◌;
  square = λ m. m * m;
  root = λ m. m;
}

pub distance_nine : distance plane (3 ∷ 2 ∷ 0 ∷ []) (0 ∷ 2 ∷ 0 ∷ []) ≡ value 9
unfolding distance distance_from get chain
distance_nine = refl
