-- ===== src/Timer/Update.antt =====
-- TimerMaster.cpp, `Update` and `Register`: the calls end without a failed `CHECK`, and a periodic timer that asks for a timeout of 0 is the exception.
use tt3d.Base.{
  ℕ, zero, suc, ◌+◌, ◌-◌, ◌^◌, ◌≤◌, ◌<◌, ◌≡◌, ◌∙◌, refl, arith, Bool, true, List, [], ◌∷◌, none,
  some, leb, Bool-cases, inl, inr, ◌⊎◌,
}
use tt3d.Timer.{
  TimerSlot, TimerMaster, due, take_due, Timers, lock_timers, call_expired, add_again, fire, rounds,
  update, register,
}
use tt3d.Timer.Count.{pending}
use tt3d.Timer.Insert.{
  IsWheel, appended, internal_add_timer_lem, appended-IsWheel, internal_add_timer_past,
  internal_add_timer-clock,
}
use tt3d.Timer.Advance.{pending-zero}
use tt3d.Timer.Round.{IsTimely, round-OnTime}

abbrev pub late : ℕ → TimerSlot → Bool
late jiffies s = leb s.jiffies jiffies

module _ {W : Type 0} (t : Timers W) where
  rounds_lem :
      (n : ℕ) (m : TimerMaster) (w : W)
      → IsWheel m.timer_jiffies m.vecs
      → ((v : W) → IsTimely t v)
      → (r : TimerMaster × W) × (rounds t n m w ≡ some r)
        × (r.0.timer_jiffies ≡ n + m.timer_jiffies)
        × IsWheel r.0.timer_jiffies r.0.vecs
  unfolding rounds
  rounds_lem zero m w wheel ok = ((m, w), refl, omega arith, wheel)
  rounds_lem (suc n) m w wheel ok =
      let (r, ran, on_time) = round-OnTime t m w wheel ok in
      let (r', ran', clock, wheel') = rounds_lem n r.0 r.1 on_time.wheel ok in
      (r', rw ran ran', omega (arith, on_time.clock), wheel')

  -- `Update( jiffies )` with a time that is not past ends, for a well formed wheel, timely timers, and no other thread
  -- that registers meanwhile: no `CHECK` fails, the clock is one past `jiffies`, the wheel is well formed, and no slot
  -- with a time up to `jiffies` is left in it.
  pub update_ends :
      (jiffies : ℕ) (m : TimerMaster) (w : W)
      → m.timer_jiffies ≤ jiffies
      → IsWheel m.timer_jiffies m.vecs
      → ((v : W) → IsTimely t v)
      → (r : TimerMaster × W) × (update t jiffies m w ≡ some r)
        × (r.0.timer_jiffies ≡ jiffies + 1)
        × IsWheel r.0.timer_jiffies r.0.vecs
        × (pending (late jiffies) r.0 ≡ 0)
  unfolding update
  update_ends jiffies m w h wheel ok =
      let (r, ran, clock, wheel') = rounds_lem (jiffies + 1 - m.timer_jiffies) m w wheel ok in
      let past : r.0.timer_jiffies ≡ jiffies + 1 = omega arith in
      (
        r,
        ground (arith, ran),
        past,
        wheel',
        pending-zero (late jiffies) r.0.timer_jiffies r.0 wheel' (λ s p. ground arith),
      )

  register_ends :
      (w : W) (n : ℕ) (m : TimerMaster)
      → IsWheel m.timer_jiffies m.vecs
      → t.timeout w n < 2 ^ 31
      → (m' : TimerMaster) × (register t w n m ≡ some m')
        × (m'.timer_jiffies ≡ m.timer_jiffies)
        × IsWheel m.timer_jiffies m'.vecs
  unfolding register
  register_ends w n m wheel small = elim (Bool-cases (t.alive w n)) [
    | inl e ↦
        let time = t.timeout w n + m.timer_jiffies in
        (
          appended m n time,
          rw (e, internal_add_timer_lem m n time (omega arith) (omega arith)),
          refl,
          appended-IsWheel m n time wheel (omega arith) (omega arith),
        )
    | inr e ↦ (m, rw e, refl, wheel)
  ]

  -- A periodic timer in the list asks for no timeout.
  abbrev pub HasZero : W → List TimerSlot → Type 0
  HasZero w [] = ⊥
  HasZero w (s ∷ ss) = ((t.period w s.timer ≡ true) × (t.timeout w s.timer ≡ 0)) ⊎ HasZero w ss

  add_again_zero :
      (ss : List TimerSlot) (w : W) (old : ℕ) (m : TimerMaster)
      → HasZero w ss
      → m.timer_jiffies ≡ old + 1
      → old + 1 < 2 ^ 31
      → add_again t ss w old m ≡ none
  unfolding add_again
  add_again_zero [] w old m h c b = elim h [ ]
  add_again_zero (s ∷ ss) w old m (inl (e, z)) c b =
      rw (
        e,
        internal_add_timer_past m s.timer (t.timeout w s.timer + old) (omega arith) (omega arith),
      )
  add_again_zero (s ∷ ss) w old m (inr h) c b = elim (Bool-cases (t.period w s.timer)) [
    | inl e ↦ elim (internal_add_timer-clock m s.timer (t.timeout w s.timer + old)) [
      | inl q ↦ rw (e, q)
      | inr (m', q, c') ↦ rw (e, q) (add_again_zero ss w old m' h (c' ∙ c) b)
    ]
    | inr e ↦ rw e (add_again_zero ss w old m h c b)
  ]

  -- If a periodic timer that was just called asks for a timeout of 0, before the clock reaches
  -- 2 ^ 31 - 1, the round fails the `CHECK` of `InternalAddTimer`.
  pub fire_zero_timeout :
      (m : TimerMaster) (w : W)
      → m.timer_jiffies + 1 < 2 ^ 31
      → HasZero (call_expired t (lock_timers t w (due m)) w) (lock_timers t w (due m))
      → fire t m w ≡ none
  unfolding fire take_due
  fire_zero_timeout m w b h =
      rw (add_again_zero (lock_timers t w (due m)) _ m.timer_jiffies (take_due m) h refl b)
