-- ===== src/Vector/Tests.antt =====
-- TwoDVector.hpp: the theorems for the unsigned numbers of 32 bits.
use tt3d.Base.{
  ℕ, ◌+◌, ◌-◌, ◌*◌, ◌/◌, ◌%◌, ◌≡◌, refl, arith, true, ◌&&◌, ltb, ◌==◌, none, some, if◌then◌else◌,
}
use tt3d.Vector.{Numeric, TwoDVector, less, equal, common_part, switch_values}
use tt3d.Vector.Order.{IsOrdered, holds, within, common_part-within, switch_values-twice}

abbrev uint32 : Numeric ℕ
uint32 = record {
  zero = 0;
  one = 1;
  plus = λ x y. (x + y) % 4294967296;
  minus = λ x y. (x + (4294967296 - y)) % 4294967296;
  times = λ x y. (x * y) % 4294967296;
  over = λ x y. if y == 0 then none else some (x / y);
  modulo = λ x y. if y == 0 then none else some (x % y);
  lt = ltb;
  eq = λ x y. x == y;
}

uint32-IsOrdered : IsOrdered uint32
uint32-IsOrdered = record {
  irrefl = λ x. ground arith;
  trans = λ x y z h k. ground arith;
  total = λ x y h k. ground arith;
  eq_sound = λ x y h. ground arith;
  eq_refl = λ x. ground arith;
  truth = refl;
}

abbrev vector : ℕ → ℕ → TwoDVector ℕ
vector x y = record { m_x = x; m_y = y }

less_first : holds uint32 (less uint32 (vector 1 5) (vector 1 7)) ≡ true
unfolding less
less_first = refl

less_second : holds uint32 (less uint32 (vector 1 7) (vector 2 1)) ≡ true
unfolding less
less_second = refl

common_part-within_example :
    within uint32 (common_part uint32 (vector 1 5) (vector 3 9)) 4
    ≡ (within uint32 (vector 1 5) 4 && within uint32 (vector 3 9) 4)
common_part-within_example =
    common_part-within uint32 uint32-IsOrdered (vector 1 5) (vector 3 9) 4 refl refl refl

switch_values-twice_example :
    (switch_values (switch_values (vector 1 5)) ≡ vector 1 5)
    × (equal uint32 (switch_values (vector 1 5)) (switch_values (vector 5 1))
        ≡ equal uint32 (vector 1 5) (vector 5 1))
switch_values-twice_example = switch_values-twice uint32 (vector 1 5) (vector 5 1)

-- Intervals that end before they begin: what the header's own test asks for is not what comes out.
reversed_intervals :
    (common_part uint32 (vector 3 2) (vector 2 3) ≡ vector 3 2)
    × (common_part uint32 (vector 5 0) (vector 0 5) ≡ vector 5 0)
unfolding common_part
reversed_intervals = (refl, refl)
