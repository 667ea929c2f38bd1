-- ===== src/Refs/Tests.antt =====
-- Atomic.hpp: the theorems at objects that two or three threads share.
use tt3d.Base.{arith}
use tt3d.Refs.{Object, shared_by, swap, Steps, begin, swapped}
use tt3d.Refs.Counting.{IsCounted, steps-IsCounted, all_released_undeleted}

-- One of two threads has failed, and the other has not begun.
abbrev one_failed : Object
one_failed = record { count = 2; held = 1; pending = 1; deleted = 0 }

one_fails : Steps (shared_by 2) one_failed
unfolding swap
one_fails = swapped begin (omega arith)

steps-IsCounted_example : IsCounted one_failed
steps-IsCounted_example = steps-IsCounted 2 one_failed one_fails

all_released_undeleted_example :
    Steps (shared_by 2) (record { count = 0; held = 0; pending = 0; deleted = 0 })
all_released_undeleted_example = all_released_undeleted 2 (omega arith)
