-- ===== src/Timer/Chain.antt =====
-- TimerMaster.cpp, the cascade at the start of a round of `Update`: after it no vector above the
-- first holds a slot that has to be looked at now.
use tt3d.Base.{
  ℕ, zero, suc, ◌%◌, ◌≤◌, ◌<◌, ◌≡◌, ◌≢◌, ◌∙◌, refl, subst, arith, Bool, [], Option, some, ◌==◌,
  Bool-cases, inl, inr, length,
}
use native.Mathlib.Decide.{ℕ_discrete}
use tt3d.Timer.{
  TimerSlot, TimerMaster, index_at, cascade_timers, cascade_first, cascade_second, cascade_third,
}
use tt3d.Timer.Count.{pending}
use tt3d.Timer.Insert.{IsWheel}
use tt3d.Timer.Cascade.{Cascaded, turn, cascade_loop-Cascaded}

pub cascade_timers-Cascaded :
    (k : ℕ) (m : TimerMaster)
    → 1 ≤ k
    → k < 4
    → m.timer_jiffies % turn k ≡ 0
    → IsWheel m.timer_jiffies m.vecs
    → (m' : TimerMaster) × (cascade_timers m k (index_at k m.timer_jiffies) ≡ some m')
      × Cascaded k m m'
unfolding cascade_timers
cascade_timers-Cascaded k m one hk z w =
    cascade_loop-Cascaded k (suc (length (m.vecs k (index_at k m.timer_jiffies))))
      (m.vecs k (index_at k m.timer_jiffies)) m one hk z w refl (omega arith)

-- From vector `k` on, the lists that are taken at the time `now` are empty.
pub record Settled (k now : ℕ) (m m' : TimerMaster) : Type 0 where
  pub clock : m'.timer_jiffies ≡ now
  pub wheel : IsWheel now m'.vecs
  pub cleared : (i : ℕ) → k ≤ i → i < 4 → now % turn i ≡ 0 → m'.vecs i (index_at i now) ≡ []
  pub kept : (i : ℕ) → 1 ≤ i → m.vecs i (index_at i now) ≡ [] → m'.vecs i (index_at i now) ≡ []
  pub same : (p : TimerSlot → Bool) → pending p m' ≡ pending p m

-- Where a vector is due, those below it are.
turn_down : (k i now : ℕ) → k ≤ i → i < 4 → now % turn i ≡ 0 → now % turn k ≡ 0
turn_down zero i now a b h = omega arith
turn_down (suc k) zero now a b h = absurd (omega arith)
turn_down (suc zero) (suc zero) now a b h = h
turn_down (suc (suc k)) (suc zero) now a b h = absurd (omega arith)
turn_down (suc zero) (suc (suc zero)) now a b h = omega arith
turn_down (suc (suc zero)) (suc (suc zero)) now a b h = h
turn_down (suc (suc (suc k))) (suc (suc zero)) now a b h = absurd (omega arith)
turn_down (suc zero) (suc (suc (suc zero))) now a b h = omega arith
turn_down (suc (suc zero)) (suc (suc (suc zero))) now a b h = omega arith
turn_down (suc (suc (suc zero))) (suc (suc (suc zero))) now a b h = h
turn_down (suc (suc (suc (suc k)))) (suc (suc (suc zero))) now a b h = absurd (omega arith)
turn_down (suc k) (suc (suc (suc (suc i)))) now a b h = absurd (omega arith)

idle-Settled :
    (k : ℕ) (m : TimerMaster)
    → IsWheel m.timer_jiffies m.vecs
    → m.timer_jiffies % turn k ≢ 0
    → Settled k m.timer_jiffies m m
idle-Settled k m w h = record {
  clock = refl;
  wheel = w;
  cleared = λ i a b z. absurd (h (turn_down k i m.timer_jiffies a b z));
  kept = λ i _ q. q;
  same = λ p. refl;
}

-- Nothing lies above the last vector.
top-Settled : (m m' : TimerMaster) → Cascaded 3 m m' → Settled 3 m.timer_jiffies m m'
top-Settled m m' c = record {
  clock = c.clock;
  wheel = c.wheel;
  cleared =
      λ i a b _. subst (λ n. m'.vecs n (index_at n m.timer_jiffies) ≡ []) (omega arith) c.emptied;
  kept = c.kept;
  same = c.same;
}

-- A vector is taken, and then those above it.
chain-Settled :
    (k : ℕ) {m m1 m2 : TimerMaster}
    → 1 ≤ k
    → Cascaded k m m1
    → Settled (suc k) m1.timer_jiffies m1 m2
    → Settled k m.timer_jiffies m m2
chain-Settled k {m} {m1} {m2} one c s1 = record {
  clock = s.clock;
  wheel = s.wheel;
  cleared = λ i a b z. elim (ℕ_discrete k i) [
    | yes e ↦ subst (λ n. m2.vecs n (index_at n m.timer_jiffies) ≡ []) e (s.kept k one c.emptied)
    | no ne ↦ s.cleared i (omega arith) b z
  ];
  kept = λ i h q. s.kept i h (c.kept i h q);
  same = λ p. s.same p ∙ c.same p;
}
  where
    s : Settled (suc k) m.timer_jiffies m1 m2
    s = subst (λ n. Settled (suc k) n m1 m2) c.clock s1

abbrev pub Settles : ℕ → TimerMaster → Option TimerMaster → Type 0
Settles k m r = (m' : TimerMaster) × (r ≡ some m') × Settled k m.timer_jiffies m m'

third-Settled :
    (m : TimerMaster)
    → m.timer_jiffies % turn 2 ≡ 0
    → IsWheel m.timer_jiffies m.vecs
    → Settles 3 m (cascade_third m)
unfolding cascade_third
third-Settled m z w = elim (Bool-cases (index_at 2 m.timer_jiffies == 0)) [
  | inl t ↦
      let (m', e, c) = cascade_timers-Cascaded 3 m (omega arith) (omega arith) (ground arith) w in
      (m', rw t e, top-Settled m m' c)
  | inr t ↦ (m, rw t, idle-Settled 3 m w (ground arith))
]

second-Settled :
    (m : TimerMaster)
    → m.timer_jiffies % turn 1 ≡ 0
    → IsWheel m.timer_jiffies m.vecs
    → Settles 2 m (cascade_second m)
unfolding cascade_second
second-Settled m z w = elim (Bool-cases (index_at 1 m.timer_jiffies == 0)) [
  | inl t ↦
      let (m1, e, c) = cascade_timers-Cascaded 2 m (omega arith) (omega arith) (ground arith) w in
      let (m2, e2, s) = third-Settled m1 (rw c.clock (ground arith)) (rw c.clock c.wheel) in
      (m2, rw (t, e) e2, chain-Settled 2 (omega arith) c s)
  | inr t ↦ (m, rw t, idle-Settled 2 m w (ground arith))
]

-- The cascade always ends, and leaves nothing above the first vector that is due now.
pub first-Settled :
    (m : TimerMaster) → IsWheel m.timer_jiffies m.vecs → Settles 1 m (cascade_first m)
unfolding cascade_first
first-Settled m w = elim (Bool-cases (m.timer_jiffies % 256 == 0)) [
  | inl t ↦
      let (m1, e, c) = cascade_timers-Cascaded 1 m (omega arith) (omega arith) (ground arith) w in
      let (m2, e2, s) = second-Settled m1 (rw c.clock (ground arith)) (rw c.clock c.wheel) in
      (m2, rw (t, e) e2, chain-Settled 1 (omega arith) c s)
  | inr t ↦ (m, rw t, idle-Settled 1 m w (ground arith))
]
