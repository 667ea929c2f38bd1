-- ===== src/Base/Sums.antt =====
-- Sums of a function over the numbers below a bound, and what a change at one place does to them.
use Prim.Native.Nat.{ℕ, zero, suc, ◌+◌, ◌<◌}
use mathlib.Core.Path.{◌≡◌, refl}
use mathlib.Core.Logic.{◌≢◌}
use native.Mathlib.Decide.{ℕ_discrete}
use native.Mathlib.Omega.{arith}

unfoldable pub sum_below : ℕ → (ℕ → ℕ) → ℕ
sum_below zero f = 0
sum_below (suc n) f = f n + sum_below n f

pub sum_below-congr :
    (n : ℕ) (f g : ℕ → ℕ) → ((i : ℕ) → i < n → f i ≡ g i) → sum_below n f ≡ sum_below n g
unfolding sum_below
sum_below-congr zero f g h = refl
sum_below-congr (suc n) f g h =
    omega (arith, h n (omega arith), sum_below-congr n f g (λ i p. h i (omega arith)))

-- Two functions that agree but at `k`: the sums differ as the values at `k` do.
pub sum_below-change :
    (n k : ℕ) (f g : ℕ → ℕ)
    → k < n
    → ((i : ℕ) → i ≢ k → f i ≡ g i)
    → sum_below n f + g k ≡ sum_below n g + f k
unfolding sum_below
sum_below-change zero k f g h e = absurd (omega arith)
sum_below-change (suc n) k f g h e = elim (ℕ_discrete n k) [
  | yes same ↦
      rw (same) (omega (arith, sum_below-congr k f g (λ i p. e i (λ q. absurd (omega (arith, q))))))
  | no other ↦ omega (arith, e n other, sum_below-change n k f g (omega arith) e)
]

pub sum_below-zero : (n : ℕ) (f : ℕ → ℕ) → ((i : ℕ) → i < n → f i ≡ 0) → sum_below n f ≡ 0
unfolding sum_below
sum_below-zero zero f h = refl
sum_below-zero (suc n) f h =
    omega (arith, h n (omega arith), sum_below-zero n f (λ i p. h i (omega arith)))
