-- ===== src/Refs.antt =====
-- src/core/Atomic.hpp: the reference count of `intrusive_ptr`, which a `RawConnectionStatus` has, where threads share the
-- object. A release is one or two atomic operations, so the threads are counted by what they are about to do.
pub mod Counting
mod Tests
use tt3d.Base.{ℕ, zero, suc, ◌+◌, ◌-◌, ◌<◌, ◌==◌, Bool, true, false, if◌then◌else◌}

-- `held`: references that no thread has begun to release; `pending`: releases whose compare-and-swap has
-- failed, before their decrement; `deleted`: how often the object was deleted.
pub record Object : Type 0 where
  pub count : ℕ
  pub held : ℕ
  pub pending : ℕ
  pub deleted : ℕ

abbrev pub shared_by : ℕ → Object
shared_by k = record { count = k; held = k; pending = 0; deleted = 0 }

-- `intrusive_ptr_add_ref`
pub add_ref : Object → Object
add_ref o = record o { count = o.count + 1; held = o.held + 1 }

-- `atomic_compare_and_swap`, and `delete` where it succeeds.
unfoldable pub swap : Object → Object
swap o =
    if o.count == 1
    then record o { count = 0; held = o.held - 1; deleted = o.deleted + 1 }
    else record o { held = o.held - 1; pending = o.pending + 1 }

-- `atomic_dec`
unfoldable pub dec : Object → Object
dec o = record o { count = o.count - 1; pending = o.pending - 1 }

-- `intrusive_ptr_release` by one thread at a time.
pub release : Object → Object
unfolding swap dec
release o = let o1 = swap o in if o.count == 1 then o1 else dec o1

-- The operations of the threads, in any order.
pub data Steps (o : Object) : Object → Type 0 where
  begin : Steps o o
  add : {p : Object} → Steps o p → 0 < p.held → Steps o (add_ref p)
  swapped : {p : Object} → Steps o p → 0 < p.held → Steps o (swap p)
  decremented : {p : Object} → Steps o p → 0 < p.pending → Steps o (dec p)
