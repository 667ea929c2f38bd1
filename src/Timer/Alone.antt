-- ===== src/Timer/Alone.antt =====
-- TimerMaster.cpp, `Update`: a wheel with one timer, which is called when its time comes and not before.
use tt3d.Base.{
  ℕ, zero, suc, ◌+◌, ◌-◌, ◌≤◌, ◌<◌, ◌^◌, ◌≡◌, ◌≢◌, ◌∙◌, refl, ap, sym, subst, arith, Bool, true,
  ◌&&◌, List, [], ◌∷◌, some, ◌==◌, if◌then◌else◌, ◌>>=◌,
}
use tt3d.Timer.{
  TimerSlot, TimerMaster, new_timer_master, start, Timers, lock_timers, call_expired, round, rounds,
  update,
}
use tt3d.Timer.Count.{count, row, pending}
use tt3d.Timer.Insert.{
  slot, IsWheel, appended, appended-IsWheel, new_timer_master-IsWheel, pending-appended,
}
use tt3d.Base.Sums.{sum_below}
use tt3d.Timer.Advance.{at_time}
use tt3d.Timer.Round.{IsTimely, again, fired, round-OnTime}

-- The wheel holds one slot, of this timer, for this time.
pub record IsAlone (n time : ℕ) (m : TimerMaster) : Type 0 where
  pub wheel : IsWheel m.timer_jiffies m.vecs
  pub one : (p : TimerSlot → Bool) → pending p m ≡ count p (slot n time ∷ [])

abbrev any : TimerSlot → Bool
any s = true

no_slots : (ss : List TimerSlot) → count any ss ≡ 0 → ss ≡ []
unfolding count
no_slots [] e = refl
no_slots (s ∷ ss) e = absurd (omega (arith, e))

is_slot : ℕ → ℕ → TimerSlot → Bool
is_slot n time s = (s.timer == n) && (s.jiffies == time)

one_slot :
    (n time : ℕ) (ss : List TimerSlot)
    → ((p : TimerSlot → Bool) → count p ss ≡ count p (slot n time ∷ []))
    → ss ≡ slot n time ∷ []
unfolding count is_slot
one_slot n time [] e = absurd (omega (arith, e any))
one_slot n time (s ∷ []) e = ground (arith, e (is_slot n time))
one_slot n time (s ∷ s' ∷ ss) e = absurd (omega (arith, e any))

not_yet :
    (n time now : ℕ) (p : TimerSlot → Bool)
    → time ≢ now
    → count (at_time p now) (slot n time ∷ []) ≡ 0
unfolding count
not_yet n time now p ne = ground (arith, ne)

right_now :
    (n time : ℕ) (p : TimerSlot → Bool)
    → count (at_time p time) (slot n time ∷ []) ≡ count p (slot n time ∷ [])
unfolding count
right_now n time p = ground arith

first_length : (time d now : ℕ) → now ≤ time → time + d + d + 1 - now ≡ time - now + suc (d + d)
first_length time d now h = omega arith

next_length : (d b : ℕ) → 0 < d → d + b ≡ d - 1 + suc b
next_length d b h = omega arith

nothing_pending : (p : TimerSlot → Bool) → pending p (start new_timer_master) ≡ 0
unfolding start new_timer_master pending row count sum_below
nothing_pending p = refl

pub start-clock : (start new_timer_master).timer_jiffies ≡ 1
unfolding start new_timer_master
start-clock = refl

-- The first timer of a new wheel.
pub first-IsAlone :
    (n time : ℕ)
    → 1 ≤ time
    → time < 2 ^ 32
    → IsAlone n time (appended (start new_timer_master) n time)
unfolding start new_timer_master
first-IsAlone n time h b = record {
  wheel =
      appended-IsWheel (start new_timer_master) n time (new_timer_master-IsWheel 1) h (omega arith);
  one = λ p. omega (arith, pending-appended p (start new_timer_master) n time, nothing_pending p);
}

module _ {W : Type 0} (t : Timers W) (ok : (v : W) → IsTimely t v) where
  early :
      (n time : ℕ) (m : TimerMaster) (w : W)
      → IsAlone n time m
      → time ≢ m.timer_jiffies
      → (m' : TimerMaster) × (round t m w ≡ some (m', w))
        × IsAlone n time m'
        × (m'.timer_jiffies ≡ m.timer_jiffies + 1)
  unfolding lock_timers call_expired again count
  early n time m w a ne =
      let (r, e, o) = round-OnTime t m w a.wheel ok in
      let none_fired : fired t m ≡ [] = no_slots (fired t m) (
        o.exact any
        ∙ a.one (at_time any m.timer_jiffies)
        ∙ not_yet n time m.timer_jiffies any ne) in
      let same : r.1 ≡ w = o.world ∙ ap (λ ss. call_expired t (lock_timers t w ss) w) none_fired in
      (
        r.0,
        e ∙ ap (λ v. some (r.0, v)) same,
        record {
          wheel = o.wheel;
          one = λ p. omega (
            arith,
            o.conserved p,
            ap (count p) none_fired,
            ap (λ ss. count p (again t (lock_timers t w ss) r.1 m.timer_jiffies)) none_fired,
            a.one p,
          );
        },
        o.clock,
      )

  due_now :
      (n time : ℕ) (m : TimerMaster) (w : W)
      → IsAlone n time m
      → time ≡ m.timer_jiffies
      → t.alive w n ≡ true
      → (m' : TimerMaster) × (round t m w ≡ some (m', t.expired w n))
        × (t.period (t.expired w n) n ≡ true → IsAlone n (t.timeout (t.expired w n) n + time) m')
        × (m'.timer_jiffies ≡ m.timer_jiffies + 1)
  unfolding lock_timers call_expired again count
  due_now n time m w a now live =
      let (r, e, o) = round-OnTime t m w a.wheel ok in
      let its : fired t m ≡ slot n time ∷ [] = one_slot n time (fired t m) (λ p.
        o.exact p
        ∙ a.one (at_time p m.timer_jiffies)
        ∙ ap (λ k. count (at_time p k) (slot n time ∷ [])) (sym now)
        ∙ right_now n time p) in
      let locked : lock_timers t w (fired t m) ≡ slot n time ∷ [] =
        ap (lock_timers t w) its ∙ ground (arith, live) in
      let called : r.1 ≡ t.expired w n = o.world ∙ ap (λ ss. call_expired t ss w) locked in
      (
        r.0,
        e ∙ ap (λ v. some (r.0, v)) called,
        (λ periodic. record {
          wheel = o.wheel;
          one = λ p. omega (
            arith,
            o.conserved p,
            ap (count p) its,
            ap (λ ss. count p (again t ss r.1 m.timer_jiffies)) locked,
            ap (λ v. count p (again t (slot n time ∷ []) v m.timer_jiffies)) called,
            ap (λ k. count p (again t (slot n time ∷ []) (t.expired w n) k)) (sym now),
            ap (λ b. count p (if b then slot n (t.timeout (t.expired w n) n + time) ∷ [] else []))
                periodic,
            a.one p,
          );
        }),
        o.clock,
      )

  one_round :
      (k : ℕ) (m m1 : TimerMaster) (w w1 : W)
      → round t m w ≡ some (m1, w1)
      → rounds t (suc k) m w ≡ rounds t k m1 w1
  unfolding rounds
  one_round k m m1 w w1 e = ap (λ o. o >>= λ r. rounds t k r.0 r.1) e

  as_many : {k j : ℕ} (m : TimerMaster) (w : W) → k ≡ j → rounds t k m w ≡ rounds t j m w
  as_many m w e = ap (λ k. rounds t k m w) e

  -- Up to and with the round in which its time comes; `b` rounds are left.
  pub until_called :
      (j b n time : ℕ) (m : TimerMaster) (w : W)
      → IsAlone n time m
      → m.timer_jiffies + j ≡ time
      → t.alive w n ≡ true
      → (m' : TimerMaster) × (rounds t (j + suc b) m w ≡ rounds t b m' (t.expired w n))
        × (t.period (t.expired w n) n ≡ true → IsAlone n (t.timeout (t.expired w n) n + time) m')
        × (m'.timer_jiffies ≡ time + 1)
  until_called zero b n time m w a e live =
      let (m1, r, next, clock) = due_now n time m w a (omega arith) live in
      (m1, as_many m w (omega arith) ∙ one_round b m m1 w (t.expired w n) r, next, omega arith)
  until_called (suc j) b n time m w a e live =
      let (m1, r, alone, clock) = early n time m w a (omega arith) in
      let (m', rs, next, c) = until_called j b n time m1 w alone (omega arith) live in
      (m', as_many m w (omega arith) ∙ one_round (j + suc b) m m1 w w r ∙ rs, next, c)

  update-rounds :
      (j : ℕ) (m : TimerMaster) (w : W)
      → m.timer_jiffies ≤ j
      → update t j m w ≡ rounds t (j + 1 - m.timer_jiffies) m w
  unfolding update
  update-rounds j m w h = ground arith

  three_parts :
      (time d : ℕ) (m m1 m2 m3 : TimerMaster) (w w1 w2 w3 : W)
      → m.timer_jiffies ≤ time
      → 0 < d
      → rounds t (time - m.timer_jiffies + suc (d + d)) m w ≡ rounds t (d + d) m1 w1
      → rounds t (d - 1 + suc d) m1 w1 ≡ rounds t d m2 w2
      → rounds t (d - 1 + 1) m2 w2 ≡ rounds t 0 m3 w3
      → update t (time + d + d) m w ≡ some (m3, w3)
  unfolding rounds
  three_parts time d m m1 m2 m3 w w1 w2 w3 h pos e1 e2 e3 =
      update-rounds (time + d + d) m w (omega arith)
      ∙ as_many m w (first_length time d m.timer_jiffies h)
      ∙ e1
      ∙ as_many m1 w1 (next_length d d pos)
      ∙ e2
      ∙ as_many m2 w2 (omega arith)
      ∙ e3

  -- A periodic timer that is alone in the wheel is called three times by the end of its third period.
  pub called_thrice :
      (n time d : ℕ) (m : TimerMaster) (w : W)
      → IsAlone n time m
      → m.timer_jiffies ≤ time
      → 0 < d
      → ((v : W) → t.timeout v n ≡ d)
      → let w1 = t.expired w n in
        let w2 = t.expired w1 n in
        (t.alive w n ≡ true)
        → (t.alive w1 n ≡ true) × (t.period w1 n ≡ true)
        → (t.alive w2 n ≡ true) × (t.period w2 n ≡ true)
        → (m' : TimerMaster) × (update t (time + d + d) m w ≡ some (m', t.expired w2 n))
  called_thrice n time d m w a h pos every l (l1, p1) (l2, p2) =
      let w1 = t.expired w n in
      let w2 = t.expired w1 n in
      let j = time - m.timer_jiffies in
      let (m1, e1, next1, c1) = until_called j (d + d) n time m w a (omega arith) l in
      let a1 = subst (λ k. IsAlone n (k + time) m1) (every w1) (next1 p1) in
      let (m2, e2, next2, c2) = until_called (d - 1) d n (d + time) m1 w1 a1 (omega arith) l1 in
      let a2 = subst (λ k. IsAlone n (k + (d + time)) m2) (every w2) (next2 p2) in
      let (m3, e3, next3, c3) =
        until_called (d - 1) 0 n (d + (d + time)) m2 w2 a2 (omega arith) l2 in
      (m3, three_parts time d m m1 m2 m3 w w1 w2 (t.expired w2 n) h pos e1 e2 e3)
