-- ===== src/Threads.antt =====
-- src/core/thread: PCQueue.hpp, ThreadPool.hpp and Notifier.hpp. The mutexes make each call one step,
-- and so is a worker's turn: it takes an entry of the queue, and runs it or ends. A task is a number.
-- `Stop` joins the threads with a time limit, after which a worker may still run.
pub mod Pool
pub mod Notify
mod Tests
use tt3d.Base.{
  ℕ, zero, suc, ◌+◌, ◌-◌, Bool, true, false, not, ◌&&◌, List, [], ◌∷◌, ◌++◌, Option, none, some,
  replicate, length, leb, ltb, ◌==◌, if◌then◌else◌, ◌>>=◌,
}

-- `PCQueue`: `none` where `Pop` waits.
pub push : {A : Type 0} → A → List A → List A
push t queue = queue ++ t ∷ []

pub pop : {A : Type 0} → List A → Option (A × List A)
pop [] = none
pop (t ∷ queue) = some (t, queue)

-- An empty function among the queue's entries is `none`. `workers` are the threads that still loop, and
-- `ran` the tasks that they have taken.
pub record ThreadPool : Type 0 where
  pub size : ℕ
  pub threads : ℕ
  pub queue : List (Option ℕ)
  pub workers : ℕ
  pub ran : List ℕ

pub new_thread_pool : ℕ → ThreadPool
new_thread_pool size = record { size = size; threads = 0; queue = []; workers = 0; ran = [] }

pub start : ThreadPool → ThreadPool
start p =
    if not (p.threads == 0) then p else record p { threads = p.size; workers = p.workers + p.size }

pub is_running : ThreadPool → Bool
is_running p = ltb 0 p.threads

pub push_task : Option ℕ → ThreadPool → ThreadPool
unfolding push
push_task none p = p
push_task (some t) p = record p { queue = push (some t) p.queue }

-- The loop of `Stop` that pushes an empty function for each thread.
push_empty : ℕ → List (Option ℕ) → List (Option ℕ)
unfolding push
push_empty zero queue = queue
push_empty (suc n) queue = push_empty n (push none queue)

pub stop : ThreadPool → ThreadPool
unfolding push_empty
stop p =
    if p.threads == 0 then p else record p { queue = push_empty p.threads p.queue; threads = 0 }

taken : ThreadPool → Option ℕ × List (Option ℕ) → ThreadPool
taken p (none, queue) = record p { queue = queue; workers = p.workers - 1 }
taken p (some t, queue) = record p { queue = queue; ran = p.ran ++ t ∷ [] }

-- A turn of `Loop`, by any of the workers.
pub loop : ThreadPool → Option ThreadPool
unfolding pop taken
loop p = if p.workers == 0 then none else pop p.queue >>= λ r. some (taken p r)

pub loops : ℕ → ThreadPool → Option ThreadPool
unfolding loop
loops zero p = some p
loops (suc n) p = loop p >>= loops n

-- `Notifier`; `Dec` and `Inc` take an `int`.
pub data ℤ : Type 0 where
  pos : ℕ → ℤ
  negsuc : ℕ → ℤ

pub record Notifier : Type 0 where
  pub count : ℕ
  pub notified : Bool

unfoldable pub new_notifier : ℕ → Notifier
new_notifier initial_count = record { count = initial_count; notified = false }

unfoldable pub counted : ℤ → ℕ → ℕ
counted (pos zero) count = count
counted (pos (suc n)) count = if leb (suc n) count then count - suc n else count
counted (negsuc n) count = count + suc n

unfoldable pub dec : ℤ → Notifier → Notifier
unfolding counted
dec cnt n =
    let count = counted cnt n.count in
    record { count = count; notified = if count == 0 then true else n.notified }

unfoldable pub negate : ℤ → ℤ
negate (pos zero) = pos zero
negate (pos (suc n)) = negsuc n
negate (negsuc n) = pos (suc n)

unfoldable pub inc : ℤ → Notifier → Notifier
unfolding dec negate
inc cnt n = dec (negate cnt) n

pub notify : Notifier → Notifier
unfolding dec
notify n = dec (pos 1) n

-- `Wait`, given what the one timed wait returns.
pub wait : Bool → Notifier → Bool
wait timed_wait n = if not n.notified then timed_wait else true
