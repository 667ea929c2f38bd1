-- ===== src/Coordinate/Axes.antt =====
-- Coordinate.hpp: reading the components, projecting, and the two distances.
use tt3d.Base.{
  ◌⊎◌, inl, inr, drop, get_elem?-append_left, get_elem?-cases, ℕ, zero, suc, ◌+◌, ◌≤◌, ◌<◌, ◌≡◌,
  ◌∙◌, refl, ap, arith, List, [], ◌∷◌, ◌++◌, none, some, get_elem?, length,
}
use tt3d.Coordinate.{
  Outcome, value, out_of_range, terminated, undefined, chain, Coordinate, coordinate_2,
  at_unchecked, at, get, pop_back, normal_projection, Measure, part, distance, distance_2d,
  distance_from, found,
}

-- Below the length, `Get`, `at` and `[]` all read the same component; beyond it `Get` ends the program,
-- `at` throws, and `[]` is undefined.
pub get-length :
    {A : Type 0} (c : Coordinate A) (axis : ℕ)
    → ((axis < length c)
        × (a : A) × (get c axis ≡ value a)
        × (at c axis ≡ value a)
        × (at_unchecked c axis ≡ value a))
      ⊎ ((length c ≤ axis)
          × (get c axis ≡ terminated)
          × (at c axis ≡ out_of_range)
          × (at_unchecked c axis ≡ undefined))
unfolding get at at_unchecked found
get-length c axis = elim (get_elem?-cases c axis) [
  | inl (h, a, e) ↦ inl (h, a, rw e, rw e, rw e)
  | inr (h, e) ↦ inr (h, rw e, rw e, rw e)
]

pop_back-append : {A : Type 0} (d : List A) (a : A) → pop_back (d ++ a ∷ []) ≡ value d
unfolding pop_back chain
pop_back-append [] a = refl
pop_back-append (b ∷ []) a = refl
pop_back-append (b ∷ e ∷ d) a = rw (pop_back-append (e ∷ d) a)

-- A projection keeps every component but the last, whose axis it no longer has.
pub normal_projection-get :
    {A : Type 0} (d : List A) (a : A) (axis : ℕ)
    → axis < length d
    → (chain (normal_projection (d ++ a ∷ [])) (λ p. get p axis) ≡ get (d ++ a ∷ []) axis)
      × (chain (normal_projection (d ++ a ∷ [])) (λ p. get p (length d)) ≡ terminated)
unfolding normal_projection chain get found
normal_projection-get d a axis h = elim (get_elem?-cases d (length d)) [
  | inl (k, b, e) ↦ absurd (omega arith)
  | inr (k, e) ↦ (
    rw (pop_back-append d a, get_elem?-append_left d (a ∷ []) axis h),
    rw (pop_back-append d a, e),
  )
]

next : (i : ℕ) → i + 1 ≡ suc i
next i = omega arith

-- What is left from an index on: nothing, or the component there and what is left after it.
drop-step :
    {A : Type 0} (b : List A) (i : ℕ) (P : List A → Type 0)
    → (get_elem? b i ≡ none → P [])
    → ((n : A) → get_elem? b i ≡ some n → P (n ∷ drop (suc i) b))
    → P (drop i b)
drop-step [] zero P f g = f refl
drop-step [] (suc i) P f g = f refl
drop-step (n ∷ b) zero P f g = g n refl
drop-step (n ∷ b) (suc i) P f g = drop-step b i P f g

module _ {A D : Type 0} (M : Measure A D) where
  -- Between coordinates made of two components, the optimised distance is the general one.
  pub distance_2d-distance :
      (ax ay bx by' : A)
      → distance_2d M (coordinate_2 ax ay) (coordinate_2 bx by')
        ≡ distance M (coordinate_2 ax ay) (coordinate_2 bx by')
  unfolding distance_2d distance distance_from at_unchecked get found chain
  distance_2d-distance ax ay bx by' = refl

  pub distance-coordinate_2 :
      (ax ay bx by' : A)
      → distance M (coordinate_2 ax ay) (coordinate_2 bx by')
        ≡ value (M.root (M.plus (M.plus M.zero (part M ax bx)) (part M ay by')))
  unfolding distance distance_from get found chain
  distance-coordinate_2 ax ay bx by' = refl

  -- The sum over both lists at once.
  pub total : List A → List A → D → Outcome D
  total [] ns ret = value ret
  total (m ∷ ms) [] ret = terminated
  total (m ∷ ms) (n ∷ ns) ret = total ms ns (M.plus ret (part M m n))

  distance_from-total :
      (ms : List A) (i : ℕ) (b : Coordinate A) (ret : D)
      → distance_from M ms i b ret ≡ total ms (drop i b) ret
  unfolding distance_from total chain get found
  distance_from-total [] i b ret = refl
  distance_from-total (m ∷ ms) i b ret =
      drop-step b i
        (λ bs.
          chain (get b i) (λ n. distance_from M ms (i + 1) b (M.plus ret (part M m n)))
          ≡ total (m ∷ ms) bs ret)
        (λ e. rw (e, total) refl)
        (λ n e. rw e (
          distance_from-total ms (i + 1) b (M.plus ret (part M m n))
          ∙ ap (λ k. total ms (drop k b) (M.plus ret (part M m n))) (next i)))

  total_sym :
      (a b : List A) (ret : D)
      → ((m n : A) → M.magnitude (M.minus m n) ≡ M.magnitude (M.minus n m))
      → length a ≡ length b
      → total a b ret ≡ total b a ret
  unfolding total
  total_sym [] [] ret s h = refl
  total_sym (m ∷ a) [] ret s h = absurd (omega arith)
  total_sym [] (n ∷ b) ret s h = absurd (omega arith)
  total_sym (m ∷ a) (n ∷ b) ret s h =
      ap (λ t. total a b (M.plus ret (M.square (M.to_double t)))) (s m n)
      ∙ total_sym a b _ s (omega arith)

  -- Where a difference and its opposite have the same magnitude, the distance between coordinates of one
  -- length is the same both ways.
  pub distance-symmetric :
      (a b : Coordinate A)
      → ((m n : A) → M.magnitude (M.minus m n) ≡ M.magnitude (M.minus n m))
      → length a ≡ length b
      → distance M a b ≡ distance M b a
  unfolding distance
  distance-symmetric a b s h =
      rw (
        distance_from-total a 0 b M.zero,
        distance_from-total b 0 a M.zero,
        total_sym a b M.zero s h,
      )

  total_short : (a b : List A) (ret : D) → length b < length a → total a b ret ≡ terminated
  unfolding total
  total_short [] b ret h = absurd (omega arith)
  total_short (m ∷ a) [] ret h = refl
  total_short (m ∷ a) (n ∷ b) ret h = total_short a b _ (omega arith)

  -- A distance to a coordinate with fewer components ends the program.
  pub distance-length : (a b : Coordinate A) → length b < length a → distance M a b ≡ terminated
  unfolding distance chain
  distance-length a b h = rw (distance_from-total a 0 b M.zero, total_short a b M.zero h)
