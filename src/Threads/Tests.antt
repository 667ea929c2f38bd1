-- ===== src/Threads/Tests.antt =====
-- ThreadPool.hpp and Notifier.hpp: the theorems at concrete states.
use tt3d.Base.{◌≡◌, refl, arith, [], ◌∷◌, ◌++◌, none, some}
use tt3d.Threads.{ThreadPool, stop, loops, start, push_task, new_thread_pool}
use tt3d.Threads.Pool.{stop-loops}

abbrev busy : ThreadPool
busy = record {
  size = 2;
  threads = 2;
  queue = some 7 ∷ some 8 ∷ some 9 ∷ [];
  workers = 2;
  ran = 6 ∷ [];
}

stop-loops_example :
    loops 5 (stop busy)
    ≡ some
        (record busy { queue = []; workers = 0; threads = 0; ran = (6 ∷ []) ++ (7 ∷ 8 ∷ 9 ∷ []) })
stop-loops_example = stop-loops busy (7 ∷ 8 ∷ 9 ∷ []) (omega arith) refl refl

-- A null task is not pushed, and a second start adds no threads.
null_task : push_task none (start (new_thread_pool 2)) ≡ start (start (new_thread_pool 2))
unfolding push_task start new_thread_pool
null_task = refl
