-- ===== src/Raw/Open.antt =====
-- Connection.hpp and RawConnection.cpp: `PushData` and `ScheduleWrite` as another part sees them.
use tt3d.Base.{
  ℕ, ◌≡◌, ◌∙◌, refl, ap, arith, Bool, true, false, ◌++◌, Option, none, some, append-nil,
  append_assoc, [],
}
use tt3d.Buffers.{Bytes}
use tt3d.Raw.{Connection, push_data, schedule_write, raw_schedule_write, internal_push_data}
use tt3d.Raw.Stream.{
  stream, IsStream, item_bytes, Flows, push-Flows, push_data-Flows, schedule_write-Flows,
  raw_schedule_write-Flows,
}

-- A connection that takes what is pushed.
pub record IsOpen (c : Connection) : Type 0 where
  pub open' : c.status.closing ≡ false
  pub impl : c.impl ≡ true
  pub unlocked : c.exclusive ≡ false
  pub socket : c.socket ≡ true
  pub in_order : IsStream c

-- It took the bytes, and is still such a connection.
pub record Took (bytes : Bytes) (c c' : Connection) : Type 0 where
  pub kept : IsOpen c'
  pub flow : stream c' ≡ stream c ++ bytes

-- The flags alone.
abbrev pub Flags : Connection → Type 0
Flags c = (c.status.closing ≡ false) × (c.impl ≡ true) × (c.exclusive ≡ false) × (c.socket ≡ true)

abbrev Taken : Option (Bool × Connection) → Type 0
Taken none = ⊥
Taken (some (b, c)) = (b ≡ true) × Flags c

abbrev Goes : Option Connection → Type 0
Goes none = ⊥
Goes (some c) = Flags c

taken :
    (o : Option (Bool × Connection))
    → Taken o
    → (c' : Connection) × (o ≡ some (true, c')) × Flags c'
taken none t = absurd t
taken (some (b, c)) t = (c, rw t.0, t.1)

goes : (o : Option Connection) → Goes o → (c' : Connection) × (o ≡ some c') × Flags c'
goes none t = absurd t
goes (some c) t = (c, refl, t)

flags : {c : Connection} → IsOpen c → Flags c
flags o = (o.open', o.impl, o.unlocked, o.socket)

push_data-Taken :
    (item : Option (Bytes × Bytes)) (c : Connection) → Flags c → Taken (push_data item c)
unfolding push_data internal_push_data
push_data-Taken none c o = ground arith
push_data-Taken (some (h, d)) c o = ground arith

schedule_write-Taken : (c : Connection) → Flags c → Taken (schedule_write c)
unfolding schedule_write raw_schedule_write
schedule_write-Taken c o = ground arith

pub push_data-takes :
    (item : Option (Bytes × Bytes)) (c : Connection)
    → Flags c
    → (c' : Connection) × (push_data item c ≡ some (true, c')) × Flags c'
push_data-takes item c f = taken (push_data item c) (push_data-Taken item c f)

pub schedule_write-takes :
    (c : Connection) → Flags c → (c' : Connection) × (schedule_write c ≡ some (true, c')) × Flags c'
schedule_write-takes c f = taken (schedule_write c) (schedule_write-Taken c f)

raw_schedule_write-Goes : (c : Connection) → IsOpen c → Goes (raw_schedule_write c)
unfolding raw_schedule_write
raw_schedule_write-Goes c o = ground arith

internal_push_data-Flags :
    (item : Option (Bytes × Bytes)) (c : Connection) → IsOpen c → Flags (internal_push_data item c)
unfolding internal_push_data
internal_push_data-Flags none c o = ground arith
internal_push_data-Flags (some (h, d)) c o = ground arith

took : (bytes : Bytes) (c c' : Connection) → Flags c' → Flows [] bytes c c' → Took bytes c c'
took bytes c c' f w = record {
  kept = record { open' = f.0; impl = f.1; unlocked = f.2; socket = f.3; in_order = w.kept };
  flow = w.flow;
}

pub push_data-Took :
    (item : Option (Bytes × Bytes)) (c : Connection)
    → IsOpen c
    → (c' : Connection) × (push_data item c ≡ some (true, c')) × Took (item_bytes item) c c'
push_data-Took item c o =
    let (c', e, f) = taken (push_data item c) (push_data-Taken item c (flags o)) in
    (c', e, took (item_bytes item) c c' f (push_data-Flows item c c' o.in_order e))

pub schedule_write-Took :
    (c : Connection)
    → IsOpen c
    → (c' : Connection) × (schedule_write c ≡ some (true, c')) × Took [] c c'
schedule_write-Took c o =
    let (c', e, f) = taken (schedule_write c) (schedule_write-Taken c (flags o)) in
    (c', e, took [] c c' f (schedule_write-Flows true c c' o.in_order e))

pub raw_schedule_write-Took :
    (c : Connection)
    → IsOpen c
    → (c' : Connection) × (raw_schedule_write c ≡ some c') × Took [] c c'
raw_schedule_write-Took c o =
    let (c', e, f) = goes (raw_schedule_write c) (raw_schedule_write-Goes c o) in
    (c', e, took [] c c' f (raw_schedule_write-Flows c c' o.in_order e))

pub internal_push_data-Took :
    (item : Option (Bytes × Bytes)) (c : Connection)
    → IsOpen c
    → Took (item_bytes item) c (internal_push_data item c)
internal_push_data-Took item c o =
    took (item_bytes item) c (internal_push_data item c) (internal_push_data-Flags item c o)
      (push-Flows item c o.in_order)

pub Took-trans :
    {a b : Bytes} {c c1 c2 : Connection} → Took a c c1 → Took b c1 c2 → Took (a ++ b) c c2
Took-trans {a = a} {b = b} {c = c} s t = record {
  kept = t.kept;
  flow = t.flow ∙ ap (λ u. u ++ b) s.flow ∙ append_assoc (stream c) a b;
}

pub Took-nil : {a : Bytes} {c c' : Connection} → Took (a ++ []) c c' → Took a c c'
Took-nil {a = a} {c = c} t = record {
  kept = t.kept;
  flow = t.flow ∙ ap (λ u. stream c ++ u) (append-nil a);
}

-- A closing connection takes nothing.
pub push_data-closing :
    (item : Option (Bytes × Bytes)) (c : Connection)
    → c.status.closing ≡ true
    → c.exclusive ≡ false
    → push_data item c ≡ some (false, c)
unfolding push_data
push_data-closing item c h x = ground arith

pub schedule_write-closing :
    (c : Connection)
    → c.status.closing ≡ true
    → c.exclusive ≡ false
    → schedule_write c ≡ some (false, c)
unfolding schedule_write
schedule_write-closing c h x = ground arith

-- Only the number of readers changes.
pub with_shared : (n : ℕ) {c : Connection} → IsOpen c → IsOpen (record c { shared = n })
with_shared n o = record {
  open' = o.open';
  impl = o.impl;
  unlocked = o.unlocked;
  socket = o.socket;
  in_order = record {
    index = o.in_order.index;
    queue_0 = o.in_order.queue_0;
    queue_1 = o.in_order.queue_1;
    drained = o.in_order.drained;
  };
}

pub push-shared :
    (item : Option (Bytes × Bytes)) (c : Connection) → (internal_push_data item c).shared ≡ c.shared
unfolding internal_push_data
push-shared none c = refl
push-shared (some (h, d)) c = ground arith

pub schedule-shared : (c c' : Connection) → raw_schedule_write c ≡ some c' → c'.shared ≡ c.shared
unfolding raw_schedule_write
schedule-shared c c' e = ground arith
