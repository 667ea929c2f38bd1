-- ===== src/Vector/Order.antt =====
-- TwoDVector.hpp: the comparison operators, `common_part`, and how the assigning operators go with the others.
use tt3d.Base.{◌↔◌, ◌≡◌, arith, Bool, true, false, not, ◌&&◌, ◌||◌, Option, none, some}
use tt3d.Vector.{
  Numeric, TwoDVector, add, sub, mul, mod_number, mod_vector, mod_assign_number, mod_assign_vector,
  add_number, add_vector, add_assign_number, add_assign_vector, sub_number, sub_vector,
  sub_assign_number, sub_assign_vector, mul_number, mul_vector, mul_assign_number,
  mul_assign_vector, div_number, div_vector, div_assign_number, div_assign_vector, equal, not_equal,
  common_part, less, switch_values, default_vector,
}

-- The number type's comparisons are those of a total order, and its `true` differs from its `false`.
pub record IsOrdered {A : Type 0} (N : Numeric A) : Type 0 where
  pub irrefl : (x : A) → N.lt x x ≡ false
  pub trans : (x y z : A) → N.lt x y ≡ true → N.lt y z ≡ true → N.lt x z ≡ true
  pub total : (x y : A) → N.lt x y ≡ false → N.lt y x ≡ false → x ≡ y
  pub eq_sound : (x y : A) → N.eq x y ≡ true → x ≡ y
  pub eq_refl : (x : A) → N.eq x x ≡ true
  pub truth : N.eq N.one N.zero ≡ false

module _ {A : Type 0} (N : Numeric A) where
  -- The number that a comparison gives, read as a condition.
  abbrev pub holds : A → Bool
  holds n = not (N.eq n N.zero)

  -- Whether the interval holds the point.
  abbrev pub within : TwoDVector A → A → Bool
  within v t = not (N.lt t v.m_x) && not (N.lt v.m_y t)

  -- Whether one of the intervals ends before the other begins.
  abbrev pub apart : TwoDVector A → TwoDVector A → Bool
  apart a b = N.lt a.m_y b.m_x || N.lt b.m_y a.m_x

module _ {A : Type 0} (N : Numeric A) (O : IsOrdered N) where
  -- `operator<` is transitive.
  pub less_trans :
      (a b c : TwoDVector A)
      → holds N (less N a b) ≡ true
      → holds N (less N b c) ≡ true
      → holds N (less N a c) ≡ true
  unfolding less
  less_trans a b c h k = ground (
    arith,
    O.truth,
    O.eq_refl N.zero,
    O.trans a.m_x b.m_x c.m_x,
    O.trans a.m_y b.m_y c.m_y,
    O.trans a.m_x c.m_x b.m_x,
    O.trans c.m_x a.m_x b.m_x,
    O.trans b.m_x c.m_x a.m_x,
    O.trans c.m_x b.m_x a.m_x,
    O.trans b.m_x a.m_x c.m_x,
    O.total a.m_x b.m_x,
    O.total b.m_x c.m_x,
    O.total a.m_x c.m_x,
    O.irrefl a.m_x,
    O.irrefl b.m_x,
    O.irrefl c.m_x,
  )

  -- Of two vectors exactly one is less, or `operator==` holds: it is the order's own equality.
  pub less-equal :
      (a b : TwoDVector A) → holds N (less N b a) ≡ not (holds N (less N a b) || equal N a b)
  unfolding less equal
  less-equal a b = ground (
    arith,
    O.truth,
    O.eq_refl N.zero,
    O.eq_refl a.m_x,
    O.eq_refl a.m_y,
    O.eq_sound a.m_x b.m_x,
    O.eq_sound a.m_y b.m_y,
    O.trans a.m_x b.m_x a.m_x,
    O.trans a.m_y b.m_y a.m_y,
    O.total a.m_x b.m_x,
    O.total a.m_y b.m_y,
    O.irrefl a.m_x,
    O.irrefl a.m_y,
  )

  -- `operator==` says whether two vectors are equal, and `operator!=` the contrary.
  pub equal-not_equal :
      (a b : TwoDVector A)
      → ((equal N a b ≡ true) ↔ (a ≡ b)) × (not_equal N a b ≡ not (equal N a b))
  unfolding equal not_equal
  equal-not_equal a b =
      ground
        (arith, O.eq_refl a.m_x, O.eq_refl a.m_y, O.eq_sound a.m_x b.m_x, O.eq_sound a.m_y b.m_y)

  -- Where neither of two intervals ends before it begins, nor before the other begins, their common part holds exactly
  -- the points that both hold.
  pub common_part-within :
      (a b : TwoDVector A) (t : A)
      → N.lt a.m_y a.m_x ≡ false
      → N.lt b.m_y b.m_x ≡ false
      → apart N a b ≡ false
      → within N (common_part N a b) t ≡ (within N a t && within N b t)
  unfolding common_part
  common_part-within a b t p q h = ground (
    arith,
    O.trans t a.m_x b.m_x,
    O.trans t b.m_x a.m_x,
    O.trans a.m_y b.m_y t,
    O.trans b.m_y a.m_y t,
    O.trans a.m_x b.m_x t,
    O.trans b.m_x a.m_x t,
    O.total a.m_x b.m_x,
    O.total a.m_y b.m_y,
    O.irrefl a.m_x,
  )

  -- Intervals that do not end before they begin, and are apart, hold no common point, and the result is
  -- then (0, 0).
  pub common_part-apart :
      (a b : TwoDVector A) (t : A)
      → N.lt a.m_y a.m_x ≡ false
      → N.lt b.m_y b.m_x ≡ false
      → apart N a b ≡ true
      → (common_part N a b ≡ default_vector N) × ((within N a t && within N b t) ≡ false)
  unfolding common_part default_vector
  common_part-apart a b t p q h = ground (
    arith,
    O.trans t a.m_x b.m_x,
    O.trans t b.m_x a.m_x,
    O.trans a.m_y b.m_y t,
    O.trans b.m_y a.m_y t,
    O.trans a.m_x a.m_y b.m_x,
    O.trans b.m_x b.m_y a.m_x,
    O.trans a.m_x b.m_x a.m_x,
    O.trans a.m_y t b.m_x,
    O.trans b.m_y t a.m_x,
    O.trans a.m_x b.m_y a.m_y,
    O.trans b.m_y a.m_x b.m_x,
    O.trans a.m_y b.m_x b.m_y,
    O.trans a.m_y b.m_x a.m_x,
    O.trans a.m_y b.m_x t,
    O.trans b.m_y a.m_x t,
    O.trans b.m_x a.m_x a.m_y,
    O.trans a.m_x b.m_x b.m_y,
    O.total a.m_x a.m_y,
    O.total b.m_x b.m_y,
    O.total t b.m_x,
    O.total t a.m_x,
    O.total a.m_y t,
    O.total b.m_y t,
    O.total a.m_x b.m_x,
    O.total a.m_y b.m_y,
    O.irrefl a.m_x,
  )

abbrev pub twice : {A : Type 0} → Option (TwoDVector A) → Option (TwoDVector A × TwoDVector A)
twice none = none
twice (some v) = some (v, v)

-- Each operator that assigns leaves, and returns, what the operator that does not assign yields.
pub assigns_lem :
    {A : Type 0} (N : Numeric A) (a b : TwoDVector A) (k : A)
    → ((add_assign_number N a k ≡ (add_number N a k, add_number N a k))
        × (add_assign_vector N a b ≡ (add_vector N a b, add N a b)))
      × ((sub_assign_number N a k ≡ (sub_number N a k, sub_number N a k))
          × (sub_assign_vector N a b ≡ (sub_vector N a b, sub N a b)))
      × ((mul_assign_number N a k ≡ (mul_number N a k, mul N a k))
          × (mul_assign_vector N a b ≡ (mul_vector N a b, mul_vector N a b)))
      × ((div_assign_number N a k ≡ twice (div_number N a k))
          × (div_assign_vector N a b ≡ twice (div_vector N a b)))
      × ((mod_assign_number N a k ≡ twice (mod_number N a k))
          × (mod_assign_vector N a b ≡ twice (mod_vector N a b)))
unfolding add sub mul add_number add_vector add_assign_number add_assign_vector sub_number
    sub_vector sub_assign_number sub_assign_vector mul_number mul_vector mul_assign_number
    mul_assign_vector div_number div_vector div_assign_number div_assign_vector mod_number
    mod_vector mod_assign_number mod_assign_vector
assigns_lem N a b k = ground arith

-- Changing the values twice changes nothing, and it changes what the operators do component by component.
pub switch_values-twice :
    {A : Type 0} (N : Numeric A) (a b : TwoDVector A)
    → (switch_values (switch_values a) ≡ a)
      × (equal N (switch_values a) (switch_values b) ≡ equal N a b)
unfolding switch_values equal
switch_values-twice N a b = ground arith
