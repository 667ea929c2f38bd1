-- ===== src/Timer/Tests.antt =====
-- Runs of the timing wheel, and the theorems about it at concrete inputs.
use tt3d.Base.{
  ℕ, ◌+◌, ◌%◌, ◌≡◌, refl, arith, true, List, [], ◌∷◌, Option, none, some, ◌==◌, ◌>>=◌, inl,
}
use tt3d.Timer.{
  cascade_timers, TimerMaster, Timers, fire, due, lock_timers, call_expired, internal_add_timer,
  cascade_timers, new_timer_master, register, round, update,
}
use tt3d.Timer.Insert.{appended, appended-IsWheel, IsWheel, new_timer_master-IsWheel}
use tt3d.Timer.Round.{OnTime, IsTimely, round-OnTime}
use tt3d.Timer.Count.{pending}
use tt3d.Timer.Update.{update_ends, late, fire_zero_timeout}

-- The world is the log of the timers called; timer 7 is periodic, and all are alive.
abbrev logging : Timers (List ℕ)
logging = record {
  alive = λ w n. true;
  period = λ w n. n == 7;
  timeout = λ w n. n % 100000 + 1;
  expired = λ w n. n ∷ w;
}

logging-IsTimely : (v : List ℕ) → IsTimely logging v
logging-IsTimely v n e = omega arith

-- The calls of `expired`, newest first, when timers 7, 2 and 299 run to the time `jiffies`.
abbrev calls : ℕ → Option (List ℕ)
calls jiffies =
    register logging [] 7 new_timer_master
    >>= register logging [] 2
    >>= register logging [] 299
    >>= λ m. update logging jiffies m [] >>= λ r. some r.1

runs_short : calls 20 ≡ some (7 ∷ 7 ∷ 2 ∷ [])
unfolding register update new_timer_master round internal_add_timer cascade_timers
runs_short = refl

-- Timer 299 waits in the second vector, and is called at 301.
calls_299 : ℕ → Option (List ℕ)
unfolding register update new_timer_master round internal_add_timer cascade_timers
calls_299 jiffies =
    register logging [] 299 new_timer_master >>= λ m. update logging jiffies m [] >>= λ r. some r.1

runs_long : (calls_299 300 ≡ some []) × (calls_299 301 ≡ some (299 ∷ []))
unfolding calls_299
runs_long = (refl, refl)

-- Timer 7 is due at the time 1, at which the clock stands.
abbrev one_due : TimerMaster
one_due = appended new_timer_master 7 1

one_due-IsWheel : IsWheel one_due.timer_jiffies one_due.vecs
unfolding new_timer_master
one_due-IsWheel =
    appended-IsWheel new_timer_master 7 1 (new_timer_master-IsWheel 1) (omega arith) (omega arith)

round-OnTime_example :
    (r : TimerMaster × List ℕ) × (round logging one_due [] ≡ some r)
    × OnTime logging one_due [] r.0 r.1
round-OnTime_example = round-OnTime logging one_due [] one_due-IsWheel logging-IsTimely

-- From the time 1, at which timer 7 is due, to the time 20.
update_ends_example :
    (r : TimerMaster × List ℕ) × (update logging 20 one_due [] ≡ some r)
    × (r.0.timer_jiffies ≡ 21)
    × IsWheel r.0.timer_jiffies r.0.vecs
    × (pending (late 20) r.0 ≡ 0)
unfolding new_timer_master
update_ends_example =
    update_ends logging 20 one_due [] (omega arith) one_due-IsWheel logging-IsTimely

-- Every timer is periodic and asks for no timeout.
abbrev restless : Timers (List ℕ)
restless = record {
  alive = λ w n. true;
  period = λ w n. true;
  timeout = λ w n. 0;
  expired = λ w n. w;
}

fire_zero_timeout_example : fire restless one_due [] ≡ none
unfolding new_timer_master due lock_timers call_expired
fire_zero_timeout_example = fire_zero_timeout restless one_due [] (omega arith) (inl (refl, refl))
