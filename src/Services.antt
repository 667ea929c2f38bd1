-- ===== src/Services.antt =====
-- src/core/network/IOServicePool.hpp and .cpp: the services, the work that keeps them running, and the
-- thread pool that runs them. A service is its index, and a task runs the service of its number. `none`
-- is a failed `CHECK` or an index beyond the end.
pub mod Robin
mod Tests
use tt3d.Base.{
  ℕ, zero, suc, ◌+◌, ◌%◌, Bool, true, false, not, List, [], ◌∷◌, ◌++◌, Option, none, some, ltb,
  length, ◌==◌, if◌then◌else◌, ◌>>=◌,
}
use tt3d.Threads.{ThreadPool, new_thread_pool, push_task}
use tt3d.Threads

pub record IoServicePool : Type 0 where
  pub num_io_services : ℕ
  pub num_threads : ℕ
  pub services : ℕ
  pub work : List ℕ
  pub next_io_service : ℕ
  pub thread_pool : ThreadPool

pub new_io_service_pool : ℕ → ℕ → IoServicePool
new_io_service_pool num_io_services num_threads = record {
  num_io_services = num_io_services;
  num_threads = num_threads;
  services = 0;
  work = [];
  next_io_service = 0;
  thread_pool = new_thread_pool num_threads;
}

unfoldable pub is_empty : List ℕ → Bool
is_empty [] = true
is_empty (w ∷ ws) = false

unfoldable pub is_running : IoServicePool → Bool
unfolding is_empty
is_running p = not (is_empty p.work)

-- The loop of `Start` over the threads that are left, at the service `k`.
start_work : ℕ → ℕ → IoServicePool → Option IoServicePool
start_work zero k p = some p
start_work (suc n) k p =
    if ltb k p.services
    then start_work n ((k + 1) % p.num_io_services)
        (record p { work = p.work ++ k ∷ []; thread_pool = push_task (some k) p.thread_pool })
    else none

pub start : IoServicePool → Option IoServicePool
unfolding is_running start_work
start p =
    if is_running p
    then some p
    else if not (p.services == 0)
    then none
    else (start_work p.num_threads 0 (record p { services = p.num_io_services; work = [] }) >>= λ q.
        some (record q { thread_pool = Threads.start q.thread_pool }))

unfoldable pub stop : IoServicePool → IoServicePool
unfolding is_running
stop p =
    if not (is_running p)
    then p
    else record p { thread_pool = Threads.stop p.thread_pool; work = []; services = 0 }

pub get_io_service : IoServicePool → Option (ℕ × IoServicePool)
get_io_service p =
    let next = p.next_io_service + 1 in
    if ltb p.next_io_service p.services
    then some
        (p.next_io_service, record p { next_io_service = if next == p.services then 0 else next })
    else none
