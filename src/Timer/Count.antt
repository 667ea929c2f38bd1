-- ===== src/Timer/Count.antt =====
-- TimerMaster.hpp, `vecs_`: how many slots of a kind the wheel holds, and what writing one list does.
use tt3d.Base.{
  ℕ, suc, ◌+◌, ◌<◌, ◌≡◌, ◌≢◌, refl, ap, arith, Bool, List, [], ◌∷◌, ◌++◌, if◌then◌else◌,
}
use tt3d.Base.Sums.{sum_below, sum_below-congr, sum_below-change}
use tt3d.Timer.{TimerSlot, TimerMaster, set_vec}

-- The slots of a list that satisfy a test.
unfoldable pub count : (TimerSlot → Bool) → List TimerSlot → ℕ
count p [] = 0
count p (s ∷ ss) = let rest = count p ss in if p s then suc rest else rest

pub count-append :
    (p : TimerSlot → Bool) (xs ys : List TimerSlot) → count p (xs ++ ys) ≡ count p xs + count p ys
unfolding count
count-append p [] ys = omega arith
count-append p (x ∷ xs) ys = ground (arith, count-append p xs ys)

module _ (p : TimerSlot → Bool) where
  unfoldable pub row : TimerMaster → ℕ → ℕ
  row m i = sum_below 256 (λ j. count p (m.vecs i j))

  -- The same over the lists of all four vectors.
  unfoldable pub pending : TimerMaster → ℕ
  pending m = sum_below 4 (row m)

module _ (m : TimerMaster) (i j : ℕ) (l : List TimerSlot) where
  pub set_vec_self : (set_vec m i j l).vecs i j ≡ l
  set_vec_self = ground arith

  pub set_vec_ne_list : (b : ℕ) → b ≢ j → (set_vec m i j l).vecs i b ≡ m.vecs i b
  set_vec_ne_list b h = ground arith

  pub set_vec_ne_vec : (a b : ℕ) → a ≢ i → (set_vec m i j l).vecs a b ≡ m.vecs a b
  set_vec_ne_vec a b h = ground arith

  row-set_vec :
      (p : TimerSlot → Bool)
      → j < 256
      → row p (set_vec m i j l) i + count p (m.vecs i j) ≡ row p m i + count p l
  unfolding row
  row-set_vec p h = omega (
    arith,
    ap (count p) set_vec_self,
    sum_below-change 256 j (λ b. count p ((set_vec m i j l).vecs i b)) (λ b. count p (m.vecs i b)) h
        (λ b ne. ap (count p) (set_vec_ne_list b ne)),
  )

  row-set_vec_ne : (p : TimerSlot → Bool) (a : ℕ) → a ≢ i → row p (set_vec m i j l) a ≡ row p m a
  unfolding row
  row-set_vec_ne p a ne = sum_below-congr 256 _ _ (λ b _. ap (count p) (set_vec_ne_vec a b ne))

  pub pending-set_vec :
      (p : TimerSlot → Bool)
      → i < 4
      → j < 256
      → pending p (set_vec m i j l) + count p (m.vecs i j) ≡ pending p m + count p l
  unfolding pending
  pending-set_vec p hi hj = omega (
    arith,
    row-set_vec p hj,
    sum_below-change 4 i (row p (set_vec m i j l)) (row p m) hi (row-set_vec_ne p),
  )

-- The clock is no part of what is counted.
pub pending-clock :
    (p : TimerSlot → Bool) (m : TimerMaster) (now : ℕ)
    → pending p (record m { timer_jiffies = now }) ≡ pending p m
unfolding pending row
pending-clock p m now = refl
