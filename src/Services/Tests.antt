-- ===== src/Services/Tests.antt =====
-- IOServicePool.cpp: the theorems at a pool of three services and four threads.
use tt3d.Base.{◌≡◌, arith, [], ◌∷◌, some}
use tt3d.Services.{IoServicePool}
use tt3d.Services.Robin.{gets, in_turn, gets-in_turn}
use tt3d.Threads.{ThreadPool}

abbrev four_threads : ThreadPool
four_threads = record { size = 4; threads = 0; queue = []; workers = 0; ran = [] }

abbrev stopped : IoServicePool
stopped = record {
  num_io_services = 3;
  num_threads = 4;
  services = 0;
  work = [];
  next_io_service = 2;
  thread_pool = four_threads;
}

abbrev running : IoServicePool
running = record stopped { services = 3; work = 0 ∷ 1 ∷ 2 ∷ 0 ∷ [] }

gets-in_turn_example : gets 3 running ≡ some (in_turn 3 2 3)
gets-in_turn_example = gets-in_turn 3 running (omega arith)
