-- ===== src/Timer/Destroy.antt =====
-- TimerMaster.cpp, `DestroyAllTimers`: every slot is deleted once.
use tt3d.Base.{ℕ, zero, suc, ◌≡◌, refl, arith, Bool, List}
use tt3d.Base.Sums.{sum_below}
use tt3d.Timer.{TimerSlot, TimerMaster, all_below, destroy_all_timers, tv_size}
use tt3d.Timer.Count.{count, row, pending, count-append}

all_below-count :
    (p : TimerSlot → Bool) (n : ℕ) (f : ℕ → List TimerSlot) (g : ℕ → ℕ)
    → ((i : ℕ) → count p (f i) ≡ g i)
    → count p (all_below n f) ≡ sum_below n g
unfolding sum_below count all_below
all_below-count p zero f g h = refl
all_below-count p (suc n) f g h =
    omega (arith, count-append p (all_below n f) (f n), all_below-count p n f g h, h n)

-- Of every kind of slot, the destructor deletes as many as there are in the wheel.
pub destroy_all_timers-count :
    (p : TimerSlot → Bool) (m : TimerMaster) → count p (destroy_all_timers m) ≡ pending p m
unfolding destroy_all_timers pending row
destroy_all_timers-count p m =
    all_below-count p 4 _ _ (λ i. all_below-count p tv_size (λ j. m.vecs i j) _ (λ j. refl))
