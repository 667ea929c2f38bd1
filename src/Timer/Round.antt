-- ===== src/Timer/Round.antt =====
-- TimerMaster.cpp, `Update`: a round calls the timers whose time it is and no other, loses no slot,
-- and never fails a `CHECK` while the periods are positive.
use tt3d.Base.{
  ℕ, ◌+◌, ◌^◌, ◌≤◌, ◌<◌, ◌≡◌, refl, sym, subst, arith, Bool, true, List, [], ◌∷◌, none, some,
  if◌then◌else◌, Bool-cases, inl, inr,
}
use tt3d.Timer.{
  TimerSlot, TimerMaster, due, take_due, Timers, internal_add_timer, lock_timers, call_expired,
  add_again, fire, round, cascade_first,
}
use tt3d.Timer.Count.{count, pending}
use tt3d.Timer.Insert.{
  slot, IsWheel, appended, internal_add_timer_lem, appended-IsWheel, pending-appended,
}
use tt3d.Timer.Chain.{Settled, first-Settled}
use tt3d.Timer.Advance.{take_due-IsWheel, pending-take_due, at_time, count-due}

module _ {W : Type 0} (t : Timers W) where
  -- Periodic timers wait for at least one tick, and for no more than an `int` holds.
  abbrev pub IsTimely : W → Type 0
  IsTimely w = (n : ℕ) → t.period w n ≡ true → (1 ≤ t.timeout w n) × (t.timeout w n < 2 ^ 31)

  -- The slots that go back into the wheel, with their new times.
  unfoldable pub again : List TimerSlot → W → ℕ → List TimerSlot
  again [] w old = []
  again (s ∷ ss) w old =
      let rest = again ss w old in
      if t.period w s.timer then slot s.timer (t.timeout w s.timer + old) ∷ rest else rest

  record Added (ss : List TimerSlot) (w : W) (old : ℕ) (m m' : TimerMaster) : Type 0 where
    clock : m'.timer_jiffies ≡ old + 1
    wheel : IsWheel (old + 1) m'.vecs
    more : (p : TimerSlot → Bool) → pending p m' ≡ pending p m + count p (again ss w old)

  -- A periodic timer finds its list, and the others stay as they are.
  one_again :
      (s : TimerSlot) (w : W) (old : ℕ) (m : TimerMaster)
      → IsTimely w
      → t.period w s.timer ≡ true
      → m.timer_jiffies ≡ old + 1
      → IsWheel (old + 1) m.vecs
      → (internal_add_timer m s.timer (t.timeout w s.timer + old)
          ≡ some (appended m s.timer (t.timeout w s.timer + old)))
        × IsWheel (old + 1) (appended m s.timer (t.timeout w s.timer + old)).vecs
  one_again s w old m ok e c wheel =
      let (positive, small) = ok s.timer e in
      (
        internal_add_timer_lem m s.timer (t.timeout w s.timer + old) (omega arith) (omega arith),
        subst (λ n. IsWheel n (appended m s.timer (t.timeout w s.timer + old)).vecs) c
            (appended-IsWheel m s.timer (t.timeout w s.timer + old)
              (subst (λ n. IsWheel n m.vecs) (sym c) wheel) (omega arith) (omega arith)),
      )

  add_again-Added :
      (ss : List TimerSlot) (w : W) (old : ℕ) (m : TimerMaster)
      → IsTimely w
      → m.timer_jiffies ≡ old + 1
      → IsWheel (old + 1) m.vecs
      → (m' : TimerMaster) × (add_again t ss w old m ≡ some m') × Added ss w old m m'
  unfolding add_again again count
  add_again-Added [] w old m ok c wheel =
      (m, refl, record { clock = c; wheel = wheel; more = λ p. omega arith })
  add_again-Added (s ∷ ss) w old m ok c wheel = elim (Bool-cases (t.period w s.timer)) [
    | inl e ↦
        let time = t.timeout w s.timer + old in
        let (found, kept) = one_again s w old m ok e c wheel in
        let (m', ran, added) = add_again-Added ss w old (appended m s.timer time) ok c kept in
        (
          m',
          rw (e, found) ran,
          record {
            clock = added.clock;
            wheel = added.wheel;
            more = λ p. rw e (ground (arith, added.more p, pending-appended p m s.timer time));
          },
        )
    | inr e ↦
        let (m', ran, added) = add_again-Added ss w old m ok c wheel in
        (
          m',
          rw e ran,
          record { clock = added.clock; wheel = added.wheel; more = λ p. rw e (added.more p) },
        )
  ]

  -- The slots that a round takes: those of the current list after the cascade.
  pub fired : TimerMaster → List TimerSlot
  fired m = elim (cascade_first m) [ none ↦ [] | some m1 ↦ due m1 ]

  -- What a round does to the wheel `m` in the world `w`.
  pub record OnTime (m : TimerMaster) (w : W) (m' : TimerMaster) (w' : W) : Type 0 where
    pub clock : m'.timer_jiffies ≡ m.timer_jiffies + 1
    pub wheel : IsWheel m'.timer_jiffies m'.vecs
    pub exact : (p : TimerSlot → Bool) → count p (fired m) ≡ pending (at_time p m.timer_jiffies) m
    pub world : w' ≡ call_expired t (lock_timers t w (fired m)) w
    pub conserved :
        (p : TimerSlot → Bool)
        → pending p m' + count p (fired m)
          ≡ pending p m + count p (again (lock_timers t w (fired m)) w' m.timer_jiffies)

  after_calls : TimerMaster → W → W
  after_calls m w = call_expired t (lock_timers t w (due m)) w

  fire-Added :
      (m : TimerMaster) (w : W)
      → IsWheel (m.timer_jiffies + 1) (take_due m).vecs
      → ((v : W) → IsTimely v)
      → (m' : TimerMaster) × (fire t m w ≡ some (m', after_calls m w))
        × Added (lock_timers t w (due m)) (after_calls m w) m.timer_jiffies (take_due m) m'
  unfolding fire take_due after_calls
  fire-Added m w wheel ok =
      let (m', ran, added) =
        add_again-Added (lock_timers t w (due m)) (after_calls m w) m.timer_jiffies (take_due m)
          (ok (after_calls m w)) refl wheel in
      (m', rw ran, added)

  fired-OnTime :
      (m m1 m' : TimerMaster) (w : W)
      → fired m ≡ due m1
      → Settled 1 m.timer_jiffies m m1
      → Added (lock_timers t w (due m1)) (after_calls m1 w) m.timer_jiffies (take_due m1) m'
      → OnTime m w m' (after_calls m1 w)
  unfolding after_calls
  fired-OnTime m m1 m' w e s added = record {
    clock = added.clock;
    wheel = rw added.clock added.wheel;
    exact = λ p. rw e (count-due p m m1 s);
    world = rw e;
    conserved = λ p. rw e (omega (arith, added.more p, pending-take_due p m1, s.same p));
  }

  -- In a well-formed wheel a round always ends well, if the timers are timely. It takes exactly the slots whose time it is, calls `Expired` of those still
  -- alive, in order, puts the periodic ones back at their next time, and keeps every other slot.
  pub round-OnTime :
      (m : TimerMaster) (w : W)
      → IsWheel m.timer_jiffies m.vecs
      → ((v : W) → IsTimely v)
      → (r : TimerMaster × W) × (round t m w ≡ some r) × OnTime m w r.0 r.1
  unfolding round fired
  round-OnTime m w wheel ok =
      let (m1, e, s) = first-Settled m wheel in
      let (m', ran, added) =
        fire-Added m1 w
          (subst (λ n. IsWheel (n + 1) (take_due m1).vecs) (sym s.clock) (take_due-IsWheel m m1 s))
          ok in
      (
        (m', after_calls m1 w),
        rw (e, ran),
        fired-OnTime m m1 m' w (rw (e, fired)) s (
            subst (λ n. Added (lock_timers t w (due m1)) (after_calls m1 w) n (take_due m1) m')
              s.clock added),
      )
