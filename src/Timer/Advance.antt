-- ===== src/Timer/Advance.antt =====
-- TimerMaster.cpp, the middle of a round of `Update`: taking the current list out and moving the
-- clock on keeps the wheel well formed, and the list holds exactly the slots whose time it is.
use tt3d.Base.{
  ℕ, zero, suc, ◌+◌, ◌%◌, ◌≤◌, ◌≡◌, ◌≢◌, ◌∙◌, refl, sym, subst, arith, Bool, false, List, [], ◌∷◌,
  ◌==◌, All, inl, inr, ◌⊎◌, ◌&&◌,
}
use native.Mathlib.Decide.{ℕ_discrete}
use tt3d.Base.Sums.{sum_below-zero}
use tt3d.Timer.{TimerSlot, TimerMaster, set_vec, index_at, due, take_due}
use tt3d.Timer.Place.{Fits}
use tt3d.Timer.Count.{
  count, row, pending, pending-set_vec, pending-clock, set_vec_self, set_vec_ne_vec,
}
use tt3d.Timer.Insert.{IsWheel, set_vec-IsWheel}
use tt3d.Timer.Cascade.{turn}
use tt3d.Timer.Chain.{Settled}

-- A slot that is in no list taken now fits the next time too.
Fits-next :
    (now i j jiffies : ℕ)
    → ((now % turn i ≢ 0) ⊎ (j ≢ index_at i now))
    → Fits now i j jiffies
    → Fits (now + 1) i j jiffies
Fits-next now zero j jiffies h f = omega arith
Fits-next now (suc zero) j jiffies h f = omega arith
Fits-next now (suc (suc zero)) j jiffies h f = omega arith
Fits-next now (suc (suc (suc zero))) j jiffies h f = omega arith
Fits-next now (suc (suc (suc (suc i)))) j jiffies h f = f

All-next :
    (now i j : ℕ) (ss : List TimerSlot)
    → ((now % turn i ≢ 0) ⊎ (j ≢ index_at i now))
    → All (λ s. Fits now i j s.jiffies) ss
    → All (λ s. Fits (now + 1) i j s.jiffies) ss
All-next now i j [] h f = tt
All-next now i j (s ∷ ss) h f = (Fits-next now i j s.jiffies h f.0, All-next now i j ss h f.1)

-- The lists that are taken are empty, and the others fit.
list-next :
    (now i j : ℕ) (ss : List TimerSlot)
    → (now % turn i ≡ 0 → j ≡ index_at i now → ss ≡ [])
    → All (λ s. Fits now i j s.jiffies) ss
    → All (λ s. Fits (now + 1) i j s.jiffies) ss
list-next now i j ss taken f = elim (ℕ_discrete (now % turn i) 0) [
  | yes z ↦ elim (ℕ_discrete j (index_at i now)) [
    | yes e ↦ rw (taken z e) tt
    | no ne ↦ All-next now i j ss (inr ne) f
  ]
  | no nz ↦ All-next now i j ss (inl nz) f
]

no_fifth :
    (now i j : ℕ) (ss : List TimerSlot)
    → All (λ s. Fits now (suc (suc (suc (suc i)))) j s.jiffies) ss
    → ss ≡ []
no_fifth now i j [] f = refl
no_fifth now i j (s ∷ ss) f = absurd f.0

cleared_above :
    (m m1 : TimerMaster)
    → Settled 1 m.timer_jiffies m m1
    → (i j : ℕ) → m.timer_jiffies % turn (suc i) ≡ 0
    → j ≡ index_at (suc i) m.timer_jiffies
    → m1.vecs (suc i) j ≡ []
cleared_above m m1 s (suc (suc (suc i))) j z e =
    no_fifth m.timer_jiffies i j (m1.vecs _ j) (s.wheel (suc (suc (suc (suc i)))) j)
cleared_above m m1 s i j z e = rw e (s.cleared (suc i) (omega arith) (omega arith) z)

-- What is taken at this time is empty in every vector.
taken :
    (m m1 : TimerMaster)
    → Settled 1 m.timer_jiffies m m1
    → (i j : ℕ) → m.timer_jiffies % turn i ≡ 0
    → j ≡ index_at i m.timer_jiffies
    → (take_due m1).vecs i j ≡ []
unfolding take_due
taken m m1 s zero j z e =
    subst (λ n. (take_due m1).vecs 0 n ≡ []) (rw s.clock (omega arith))
      (set_vec_self m1 0 (m1.timer_jiffies % 256) [])
taken m m1 s (suc i) j z e =
    set_vec_ne_vec m1 0 (m1.timer_jiffies % 256) [] (suc i) j (omega arith)
    ∙ cleared_above m m1 s i j z e

-- After a cascade, the rest of the wheel fits the next time.
pub take_due-IsWheel :
    (m m1 : TimerMaster)
    → Settled 1 m.timer_jiffies m m1
    → IsWheel (m.timer_jiffies + 1) (take_due m1).vecs
unfolding take_due
take_due-IsWheel m m1 s i j =
    list-next m.timer_jiffies i j ((take_due m1).vecs i j) (taken m m1 s i j)
      (set_vec-IsWheel m.timer_jiffies 0 (m1.timer_jiffies % 256) m1 [] s.wheel tt i j)

-- Every slot of the current list is due at exactly this time.
pub due_now :
    (m : TimerMaster)
    → IsWheel m.timer_jiffies m.vecs
    → All (λ s. s.jiffies ≡ m.timer_jiffies) (due m)
unfolding due
due_now m w = go (m.vecs 0 (m.timer_jiffies % 256)) (w 0 (m.timer_jiffies % 256))
  where
    go :
        (ss : List TimerSlot)
        → All (λ s. Fits m.timer_jiffies 0 (m.timer_jiffies % 256) s.jiffies) ss
        → All (λ s. s.jiffies ≡ m.timer_jiffies) ss
    go [] f = tt
    go (s ∷ ss) f = (omega arith, go ss f.1)

pub pending-take_due :
    (p : TimerSlot → Bool) (m : TimerMaster)
    → pending p (take_due m) + count p (due m) ≡ pending p m
unfolding take_due due count
pending-take_due p m = omega (
  arith,
  pending-clock p (set_vec m 0 (m.timer_jiffies % 256) []) (m.timer_jiffies + 1),
  pending-set_vec m 0 (m.timer_jiffies % 256) [] p (omega arith) (omega arith),
)

-- A test that no slot of the wheel passes counts nothing.
pub pending-zero :
    (p : TimerSlot → Bool) (now : ℕ) (m : TimerMaster)
    → IsWheel now m.vecs
    → ((s : TimerSlot) → now ≤ s.jiffies → p s ≡ false)
    → pending p m ≡ 0
unfolding pending row count
pending-zero p now m w h =
    sum_below-zero 4 _ λ i _. sum_below-zero 256 _ λ j _. go i j (m.vecs i j) (w i j)
  where
    ahead : (i j jiffies : ℕ) → Fits now i j jiffies → now ≤ jiffies
    ahead zero j jiffies f = omega arith
    ahead (suc zero) j jiffies f = omega arith
    ahead (suc (suc zero)) j jiffies f = omega arith
    ahead (suc (suc (suc zero))) j jiffies f = omega arith
    ahead (suc (suc (suc (suc i)))) j jiffies f = elim f [ ]

    go : (i j : ℕ) (ss : List TimerSlot) → All (λ s. Fits now i j s.jiffies) ss → count p ss ≡ 0
    go i j [] f = refl
    go i j (s ∷ ss) f = rw (h s (ahead i j s.jiffies f.0)) (go i j ss f.1)

abbrev pub at_time : (TimerSlot → Bool) → ℕ → TimerSlot → Bool
at_time p now s = p s && (s.jiffies == now)

count-at_time :
    (p : TimerSlot → Bool) (now : ℕ) (ss : List TimerSlot)
    → All (λ s. s.jiffies ≡ now) ss
    → count (at_time p now) ss ≡ count p ss
unfolding count
count-at_time p now [] h = refl
count-at_time p now (s ∷ ss) h = ground (arith, count-at_time p now ss h.1)

-- The current list holds, of every kind, exactly the pending slots whose time it is.
pub count-due :
    (p : TimerSlot → Bool) (m m1 : TimerMaster)
    → Settled 1 m.timer_jiffies m m1
    → count p (due m1) ≡ pending (at_time p m.timer_jiffies) m
count-due p m m1 s = omega (
  arith,
  s.same (at_time p m.timer_jiffies),
  pending-take_due (at_time p m.timer_jiffies) m1,
  count-at_time p m.timer_jiffies (due m1) (
      subst (λ n. All (λ s. s.jiffies ≡ n) (due m1)) s.clock
        (due_now m1 (subst (λ n. IsWheel n m1.vecs) (sym s.clock) s.wheel))),
  pending-zero (at_time p m.timer_jiffies) (m.timer_jiffies + 1) (take_due m1)
      (take_due-IsWheel m m1 s) (λ s h. ground arith),
)
