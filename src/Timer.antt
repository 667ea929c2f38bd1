-- ===== src/Timer.antt =====
-- src/core/TimerMaster.hpp, src/core/TimerMaster.cpp and src/core/Timer.hpp: the timing wheel of
-- four vectors with 256 lists each. `none` is a failed `CHECK`, which ends the process.
-- A slot's `timer` stands for the weak pointer, by the timer's number; what the timers themselves
-- do is a parameter, `Timers`. Each call is one step here; `Update` releases `mutex_` in between, and what other
-- threads may register there is not modelled.
pub mod Place
pub mod Count
pub mod Insert
pub mod Cascade
pub mod Chain
pub mod Advance
pub mod Round
pub mod Update
pub mod Alone
pub mod Destroy
pub mod Tests
use tt3d.Base.{
  ℕ, zero, suc, ◌+◌, ◌-◌, ◌*◌, ◌/◌, ◌%◌, ◌^◌, Bool, true, false, ◌&&◌, List, [], ◌∷◌, ◌++◌, Option,
  none, some, length, ltb, leb, ◌==◌, if◌then◌else◌, ◌>>=◌,
}

abbrev pub tv_bits : ℕ
tv_bits = 8

abbrev pub tv_size : ℕ
tv_size = 2 ^ tv_bits

pub record TimerSlot : Type 0 where
  pub timer : ℕ
  pub jiffies : ℕ

pub record TimerMaster : Type 0 where
  pub timer_jiffies : ℕ
  pub vecs : ℕ → ℕ → List TimerSlot
  pub stopped : Bool

-- The class `Timer`, whose objects live in a world `W` that the callbacks change. `alive` says
-- whether `weak_ptr::lock` finds the object.
pub record Timers (W : Type 0) : Type 0 where
  pub alive : W → ℕ → Bool
  pub period : W → ℕ → Bool
  pub timeout : W → ℕ → ℕ
  pub expired : W → ℕ → W

abbrev pub set_vec : TimerMaster → ℕ → ℕ → List TimerSlot → TimerMaster
set_vec m i j l = record m { vecs = λ a b. if (a == i) && (b == j) then l else m.vecs a b }

pub new_timer_master : TimerMaster
new_timer_master = record { timer_jiffies = 1; vecs = λ i j. []; stopped = true }

-- `Start` sets the clock back to 1; the thread it starts calls `Update`.
pub start : TimerMaster → TimerMaster
start m = if m.stopped then record m { timer_jiffies = 1; stopped = false } else m

pub stop : TimerMaster → TimerMaster
stop m = if m.stopped then m else record m { stopped = true }

-- The loops of `DestroyAllTimers`, by the destructor: the slots that are deleted, in order.
unfoldable pub all_below : ℕ → (ℕ → List TimerSlot) → List TimerSlot
all_below zero f = []
all_below (suc n) f = all_below n f ++ f n

pub destroy_all_timers : TimerMaster → List TimerSlot
unfolding all_below
destroy_all_timers m = all_below 4 (λ i. all_below tv_size (λ j. m.vecs i j))

-- `jiffies - timer_jiffies_`, as the comparison with the unsigned `upper` reads it.
abbrev pub idx_u64 : ℕ → ℕ → ℕ
idx_u64 jiffies now = if leb now jiffies then jiffies - now else 2 ^ 64 - (now - jiffies)

-- The loop of `InternalAddTimer` over the vectors: the vector and the list in it.
pub find_vec : ℕ → ℕ → ℕ → ℕ → ℕ → Option (ℕ × ℕ)
find_vec zero i upper idx expires = none
find_vec (suc left) i upper idx expires =
    let wider = upper * tv_size % 2 ^ 64 in
    let rest = find_vec left (i + 1) wider idx (expires / tv_size) in
    if ltb idx wider then some (i, expires % tv_size) else rest

-- `push_back` on the list that was found; `CHECK( v != NULL )` fails where none was.
pub push_slot : TimerMaster → TimerSlot → Option (ℕ × ℕ) → Option TimerMaster
push_slot m s none = none
push_slot m s (some (i, j)) = some (set_vec m i j (m.vecs i j ++ s ∷ []))

pub internal_add_timer : TimerMaster → ℕ → ℕ → Option TimerMaster
unfolding find_vec push_slot
internal_add_timer m timer jiffies =
    push_slot m (record { timer = timer; jiffies = jiffies })
      (find_vec 4 0 1 (idx_u64 jiffies m.timer_jiffies) jiffies)

-- The macro `INDEX( N )`.
abbrev pub index_at : ℕ → ℕ → ℕ
index_at n now = now / 2 ^ (n * tv_bits) % tv_size

-- The loop of `CascadeTimers`, until the list is empty. One round for each slot and one for the
-- test are enough, unless a slot comes back to the list that is being emptied.
pub cascade_loop : ℕ → ℕ → ℕ → TimerMaster → Option TimerMaster
cascade_loop zero i j m = none
cascade_loop (suc fuel) i j m = elim (m.vecs i j) [
  | [] ↦ some m
  | s ∷ rest ↦ internal_add_timer (set_vec m i j rest) s.timer s.jiffies >>= cascade_loop fuel i j
]

pub cascade_timers : TimerMaster → ℕ → ℕ → Option TimerMaster
unfolding cascade_loop
cascade_timers m i j = cascade_loop (suc (length (m.vecs i j))) i j m

-- The chain of `&&` in `Update`: a vector is cascaded when the indices below it are all 0.
pub cascade_third : TimerMaster → Option TimerMaster
cascade_third m =
    if index_at 2 m.timer_jiffies == 0
    then cascade_timers m 3 (index_at 3 m.timer_jiffies)
    else some m

pub cascade_second : TimerMaster → Option TimerMaster
unfolding cascade_third
cascade_second m =
    if index_at 1 m.timer_jiffies == 0
    then cascade_timers m 2 (index_at 2 m.timer_jiffies) >>= cascade_third
    else some m

pub cascade_first : TimerMaster → Option TimerMaster
unfolding cascade_second
cascade_first m =
    if m.timer_jiffies % tv_size == 0
    then cascade_timers m 1 (index_at 1 m.timer_jiffies) >>= cascade_second
    else some m

-- The slots of the current list, taken out; the clock goes on before the callbacks.
pub due : TimerMaster → List TimerSlot
due m = m.vecs 0 (m.timer_jiffies % tv_size)

pub take_due : TimerMaster → TimerMaster
take_due m = record (set_vec m 0 (m.timer_jiffies % tv_size) []) {
  timer_jiffies = m.timer_jiffies + 1;
}

module _ {W : Type 0} (t : Timers W) where
  -- The slots whose timer is still alive; the others are deleted.
  pub lock_timers : W → List TimerSlot → List TimerSlot
  lock_timers w [] = []
  lock_timers w (s ∷ ss) =
      let rest = lock_timers w ss in if t.alive w s.timer then s ∷ rest else rest

  pub call_expired : List TimerSlot → W → W
  call_expired [] w = w
  call_expired (s ∷ ss) w = call_expired ss (t.expired w s.timer)

  -- A periodic timer is added again, the slot of any other is deleted.
  pub add_again : List TimerSlot → W → ℕ → TimerMaster → Option TimerMaster
  add_again [] w old m = some m
  add_again (s ∷ ss) w old m =
      (if t.period w s.timer
        then internal_add_timer m s.timer (t.timeout w s.timer + old)
        else some m)
      >>= add_again ss w old

  -- One round of the loop in `Update`.
  pub fire : TimerMaster → W → Option (TimerMaster × W)
  unfolding lock_timers call_expired add_again due take_due
  fire m w =
      let timers = lock_timers w (due m) in
      let w1 = call_expired timers w in
      add_again timers w1 m.timer_jiffies (take_due m) >>= λ m1. some (m1, w1)

  pub round : TimerMaster → W → Option (TimerMaster × W)
  unfolding fire cascade_first
  round m w = cascade_first m >>= λ m1. fire m1 w

  pub rounds : ℕ → TimerMaster → W → Option (TimerMaster × W)
  rounds zero m w = some (m, w)
  rounds (suc n) m w = round m w >>= λ r. rounds n r.0 r.1

  -- `Update( jiffies )`: each round moves the clock by one, until it is past `jiffies`.
  pub update : ℕ → TimerMaster → W → Option (TimerMaster × W)
  unfolding rounds
  update jiffies m w =
      if leb m.timer_jiffies jiffies then rounds (jiffies + 1 - m.timer_jiffies) m w else none

  unfoldable pub register : W → ℕ → TimerMaster → Option TimerMaster
  register w timer m =
      if t.alive w timer
      then internal_add_timer m timer (t.timeout w timer + m.timer_jiffies)
      else some m
