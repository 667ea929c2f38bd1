-- ===== src/Coordinate.antt =====
-- src/core/Coordinate.hpp: a coordinate is a `std::vector` of its components. An index beyond the end
-- is undefined behaviour for `[]` and an exception for `at`; in `Get`, declared `throw()`, the exception
-- ends the program. The constructors from components fix the length; the default one leaves none.
pub mod Axes
pub mod Sample
mod Tests
use tt3d.Base.{ℕ, zero, suc, ◌+◌, List, [], ◌∷◌, ◌++◌, Option, none, some, get_elem?, length, take}

pub data Outcome (A : Type 0) : Type 0 where
  value : A → Outcome A
  out_of_range : Outcome A
  undefined : Outcome A
  terminated : Outcome A

unfoldable pub chain : {A B : Type 0} → Outcome A → (A → Outcome B) → Outcome B
chain (value a) f = f a
chain out_of_range f = out_of_range
chain undefined f = undefined
chain terminated f = terminated

pub data Axis : Type 0 where
  axis_x : Axis
  axis_y : Axis
  axis_z : Axis

abbrev pub offset : Axis → ℕ
offset axis_x = 0
offset axis_y = 1
offset axis_z = 2

-- The component list of a coordinate.
abbrev pub Coordinate : Type 0 → Type 0
Coordinate A = List A

abbrev pub coordinate : {A : Type 0} → Coordinate A
coordinate = []

abbrev pub coordinate_2 : {A : Type 0} → A → A → Coordinate A
coordinate_2 x y = x ∷ y ∷ []

abbrev pub coordinate_3 : {A : Type 0} → A → A → A → Coordinate A
coordinate_3 x y z = x ∷ y ∷ z ∷ []

unfoldable pub found : {A : Type 0} → Outcome A → Option A → Outcome A
found missing none = missing
found missing (some a) = value a

-- `[]`, `at` and `Get`.
unfoldable pub at_unchecked : {A : Type 0} → Coordinate A → ℕ → Outcome A
unfolding found
at_unchecked c ofs = found undefined (get_elem? c ofs)

pub at : {A : Type 0} → Coordinate A → ℕ → Outcome A
unfolding found
at c ofs = found out_of_range (get_elem? c ofs)

-- `x()` is not checked, `y()` and `z()` are.
pub x : {A : Type 0} → Coordinate A → Outcome A
x c = at_unchecked c 0

pub y : {A : Type 0} → Coordinate A → Outcome A
y c = at c 1

pub z : {A : Type 0} → Coordinate A → Outcome A
z c = at c 2

pub get : {A : Type 0} → Coordinate A → ℕ → Outcome A
unfolding found
get c axis = found terminated (get_elem? c axis)

-- `pop_back`, undefined on no components.
pop_back : {A : Type 0} → List A → Outcome (List A)
pop_back [] = undefined
pop_back (a ∷ []) = value []
pop_back (a ∷ b ∷ cs) = chain (pop_back (b ∷ cs)) (λ r. value (a ∷ r))

pub normal_projection : {A : Type 0} → Coordinate A → Outcome (Coordinate A)
unfolding pop_back
normal_projection c = pop_back c

-- What `distance` uses of the measure and of `double`.
pub record Measure (A D : Type 0) : Type 0 where
  pub minus : A → A → A
  pub magnitude : A → A
  pub to_double : A → D
  pub zero : D
  pub plus : D → D → D
  pub square : D → D
  pub root : D → D

module _ {A D : Type 0} (M : Measure A D) where
  -- The square of the difference of two components.
  abbrev pub part : A → A → D
  part m n = M.square (M.to_double (M.magnitude (M.minus m n)))

  -- The loop over the components, at the index `i`, with the sum so far.
  distance_from : List A → ℕ → Coordinate A → D → Outcome D
  distance_from [] i b ret = value ret
  distance_from (m ∷ ms) i b ret =
      chain (get b i) (λ n. distance_from ms (i + 1) b (M.plus ret (part m n)))

  pub distance : Coordinate A → Coordinate A → Outcome D
  unfolding distance_from
  distance a b = chain (distance_from a 0 b M.zero) (λ ret. value (M.root ret))

  -- `TwoDCoordinate::distance`.
  pub distance_2d : Coordinate A → Coordinate A → Outcome D
  distance_2d a b = chain (at_unchecked a 0) (λ ax. chain (at_unchecked b 0) (λ bx.
      chain (at_unchecked a 1) (λ ay.
        chain (at_unchecked b 1)
          (λ by'. value (M.root (M.plus (M.plus M.zero (part ax bx)) (part ay by')))))))
