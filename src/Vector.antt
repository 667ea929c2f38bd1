-- ===== src/Vector.antt =====
-- src/core/TwoDVector.hpp: a pair of numbers and its operators. The number type `numeric_t` is a type
-- parameter there, and here it is a type with a record of its operations; a division that the type
-- does not define is `none`. An operator that assigns yields the left operand's new value, and the copy
-- of it that it returns.
pub mod Order
pub mod Distance
mod Tests
use tt3d.Base.{ℕ, Bool, true, false, not, ◌&&◌, ◌||◌, Option, none, some, ◌>>=◌, if◌then◌else◌}
use tt3d.Coordinate.{Measure, part}

-- What the header uses of the number type.
pub record Numeric (A : Type 0) : Type 0 where
  pub zero : A
  pub one : A
  pub plus : A → A → A
  pub minus : A → A → A
  pub times : A → A → A
  pub over : A → A → Option A
  pub modulo : A → A → Option A
  pub lt : A → A → Bool
  pub eq : A → A → Bool

pub record TwoDVector (A : Type 0) : Type 0 where
  pub m_x : A
  pub m_y : A

module _ {A : Type 0} (N : Numeric A) where
  pub default_vector : TwoDVector A
  default_vector = record { m_x = N.zero; m_y = N.zero }

  -- The members `add`, `sub` and `mul`.
  pub add : TwoDVector A → TwoDVector A → TwoDVector A
  add a b = record a { m_x = N.plus a.m_x b.m_x; m_y = N.plus a.m_y b.m_y }

  pub sub : TwoDVector A → TwoDVector A → TwoDVector A
  sub a b = record a { m_x = N.minus a.m_x b.m_x; m_y = N.minus a.m_y b.m_y }

  pub mul : TwoDVector A → A → TwoDVector A
  mul a val = record a { m_x = N.times a.m_x val; m_y = N.times a.m_y val }

  -- The operators; `_number` is the overload whose second operand is a number.
  pub mod_number : TwoDVector A → A → Option (TwoDVector A)
  mod_number a b = do x ← N.modulo a.m_x b; y ← N.modulo a.m_y b; some (record { m_x = x; m_y = y })

  pub mod_vector : TwoDVector A → TwoDVector A → Option (TwoDVector A)
  mod_vector a b = do
    x ← N.modulo a.m_x b.m_x
    y ← N.modulo a.m_y b.m_y
    some (record { m_x = x; m_y = y })

  pub mod_assign_number : TwoDVector A → A → Option (TwoDVector A × TwoDVector A)
  mod_assign_number a b = do
    x ← N.modulo a.m_x b
    let a1 = record a { m_x = x }
    y ← N.modulo a1.m_y b
    let a2 = record a1 { m_y = y }
    some (a2, a2)

  pub mod_assign_vector : TwoDVector A → TwoDVector A → Option (TwoDVector A × TwoDVector A)
  mod_assign_vector a b = do
    x ← N.modulo a.m_x b.m_x
    let a1 = record a { m_x = x }
    y ← N.modulo a1.m_y b.m_y
    let a2 = record a1 { m_y = y }
    some (a2, a2)

  pub add_number : TwoDVector A → A → TwoDVector A
  add_number a b = record { m_x = N.plus a.m_x b; m_y = N.plus a.m_y b }

  pub add_vector : TwoDVector A → TwoDVector A → TwoDVector A
  add_vector a b = record { m_x = N.plus a.m_x b.m_x; m_y = N.plus a.m_y b.m_y }

  pub add_assign_number : TwoDVector A → A → TwoDVector A × TwoDVector A
  add_assign_number a b =
      let a1 = record a { m_x = N.plus a.m_x b } in
      let a2 = record a1 { m_y = N.plus a1.m_y b } in (a2, a2)

  pub add_assign_vector : TwoDVector A → TwoDVector A → TwoDVector A × TwoDVector A
  add_assign_vector a b =
      let a1 = record a { m_x = N.plus a.m_x b.m_x } in
      let a2 = record a1 { m_y = N.plus a1.m_y b.m_y } in (a2, a2)

  pub sub_number : TwoDVector A → A → TwoDVector A
  sub_number a b = record { m_x = N.minus a.m_x b; m_y = N.minus a.m_y b }

  pub sub_vector : TwoDVector A → TwoDVector A → TwoDVector A
  sub_vector a b = record { m_x = N.minus a.m_x b.m_x; m_y = N.minus a.m_y b.m_y }

  pub sub_assign_number : TwoDVector A → A → TwoDVector A × TwoDVector A
  sub_assign_number a b =
      let a1 = record a { m_x = N.minus a.m_x b } in
      let a2 = record a1 { m_y = N.minus a1.m_y b } in (a2, a2)

  pub sub_assign_vector : TwoDVector A → TwoDVector A → TwoDVector A × TwoDVector A
  sub_assign_vector a b =
      let a1 = record a { m_x = N.minus a.m_x b.m_x } in
      let a2 = record a1 { m_y = N.minus a1.m_y b.m_y } in (a2, a2)

  pub mul_number : TwoDVector A → A → TwoDVector A
  mul_number a b = record { m_x = N.times a.m_x b; m_y = N.times a.m_y b }

  pub mul_vector : TwoDVector A → TwoDVector A → TwoDVector A
  mul_vector a b = record { m_x = N.times a.m_x b.m_x; m_y = N.times a.m_y b.m_y }

  pub mul_assign_number : TwoDVector A → A → TwoDVector A × TwoDVector A
  mul_assign_number a b =
      let a1 = record a { m_x = N.times a.m_x b } in
      let a2 = record a1 { m_y = N.times a1.m_y b } in (a2, a2)

  pub mul_assign_vector : TwoDVector A → TwoDVector A → TwoDVector A × TwoDVector A
  mul_assign_vector a b =
      let a1 = record a { m_x = N.times a.m_x b.m_x } in
      let a2 = record a1 { m_y = N.times a1.m_y b.m_y } in (a2, a2)

  pub div_number : TwoDVector A → A → Option (TwoDVector A)
  div_number a b = do x ← N.over a.m_x b; y ← N.over a.m_y b; some (record { m_x = x; m_y = y })

  pub div_vector : TwoDVector A → TwoDVector A → Option (TwoDVector A)
  div_vector a b = do
    x ← N.over a.m_x b.m_x
    y ← N.over a.m_y b.m_y
    some (record { m_x = x; m_y = y })

  pub div_assign_number : TwoDVector A → A → Option (TwoDVector A × TwoDVector A)
  div_assign_number a b = do
    x ← N.over a.m_x b
    let a1 = record a { m_x = x }
    y ← N.over a1.m_y b
    let a2 = record a1 { m_y = y }
    some (a2, a2)

  pub div_assign_vector : TwoDVector A → TwoDVector A → Option (TwoDVector A × TwoDVector A)
  div_assign_vector a b = do
    x ← N.over a.m_x b.m_x
    let a1 = record a { m_x = x }
    y ← N.over a1.m_y b.m_y
    let a2 = record a1 { m_y = y }
    some (a2, a2)

  pub equal : TwoDVector A → TwoDVector A → Bool
  equal a b = N.eq a.m_x b.m_x && N.eq a.m_y b.m_y

  pub not_equal : TwoDVector A → TwoDVector A → Bool
  not_equal a b = not (N.eq a.m_x b.m_x) || not (N.eq a.m_y b.m_y)

  -- The lesser of two, as `std::min` has it.
  abbrev min : A → A → A
  min x y = if N.lt y x then y else x

  -- The part that two intervals from `m_x` to `m_y` share.
  pub common_part : TwoDVector A → TwoDVector A → TwoDVector A
  common_part a b =
      let (first, second) = if N.lt a.m_x b.m_x then (a, b) else (b, a) in
      if N.lt first.m_y second.m_x
      then record { m_x = N.zero; m_y = N.zero }
      else record { m_x = second.m_x; m_y = min first.m_y second.m_y }

  -- `operator<`, whose result is a number.
  abbrev of_bool : Bool → A
  of_bool b = if b then N.one else N.zero

  pub less : TwoDVector A → TwoDVector A → A
  less left right =
      if N.lt left.m_x right.m_x
      then of_bool true
      else if N.lt right.m_x left.m_x
      then of_bool false
      else of_bool (N.lt left.m_y right.m_y)

pub switch_values : {A : Type 0} → TwoDVector A → TwoDVector A
switch_values a = record { m_x = a.m_y; m_y = a.m_x }

pub floor : {A : Type 0} → (A → A) → TwoDVector A → TwoDVector A
floor floor_of source = record { m_x = floor_of source.m_x; m_y = floor_of source.m_y }

pub convert : {A B : Type 0} → (A → B) → TwoDVector A → TwoDVector B
convert number src = record { m_x = number src.m_x; m_y = number src.m_y }

-- The member `distance`, whose powers and roots are of `double`.
pub distance : {A D : Type 0} → Measure A D → TwoDVector A → TwoDVector A → D
distance M a b = M.root (M.plus (M.plus M.zero (part M a.m_x b.m_x)) (part M a.m_y b.m_y))

-- The function `distance` of two numbers; `power` takes a number to the power of a half, and back to a number.
pub distance_of : {A : Type 0} → Numeric A → (A → A) → A → A → A
distance_of N power longitunal latitunal =
    let temporary_1 = N.times longitunal longitunal in
    let temporary_2 = N.times latitunal latitunal in power (N.plus temporary_1 temporary_2)
