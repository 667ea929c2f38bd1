-- ===== src/Raw/Heartbeat.antt =====
-- RawConnection.cpp and Connection.hpp: what each event does to the numbers of heartbeats sent and received, in
-- `Heartbeat` and `OOBRecv`.
use tt3d.Base.{
  ℕ, ◌+◌, ◌-◌, ◌<◌, ◌≤◌, ◌≡◌, ◌⊎◌, arith, Bool, true, false, Option, none, some, if◌then◌else◌,
}
use tt3d.Buffers.{Bytes}
use tt3d.Raw.{
  Connection, Event, listen, step, completed, disconnect, expired, heartbeat, schedule_write,
  raw_schedule_write, handle_read, handle_write, oob_recv, push_data, internal_push_data,
  register_async_close_listener, raw_disconnect, read_done, write_done, oob_done, timer, push,
  schedule, close, set_reading, set_writing,
}
use tt3d.Raw.Handlers.{Ends, Inv, Closed, IsOthers, IsEvent, IsDecode, raw_disconnect-Closed}

-- The expiries of the timer, and the bytes that came from the peer.
abbrev pub ticks : Event → ℕ
ticks (read_done error decode f) = 0
ticks (write_done error n f) = 0
ticks (oob_done error f) = 0
ticks (timer sent f) = 1
ticks (push item) = 0
ticks schedule = 0
ticks (close f) = 0
ticks (listen l) = 0

abbrev pub heard : Event → ℕ
heard (read_done error decode f) = 0
heard (write_done error n f) = 0
heard (oob_done error f) = if error then 0 else 1
heard (timer sent f) = 0
heard (push item) = 0
heard schedule = 0
heard (close f) = 0
heard (listen l) = 0

-- What `Decode` calls does not touch the two counters.
abbrev pub IsQuiet : Event → Type 0
IsQuiet (read_done error decode f) =
    (c : Connection)
    → ((decode c).1.send_package ≡ c.send_package) × ((decode c).1.recv_package ≡ c.recv_package)
IsQuiet (write_done error n f) = Unit
IsQuiet (oob_done error f) = Unit
IsQuiet (timer sent f) = Unit
IsQuiet (push item) = Unit
IsQuiet schedule = Unit
IsQuiet (close f) = Unit
IsQuiet (listen l) = Unit

-- Open still, with the numbers that were counted.
pub record Counted (t h : ℕ) (c c' : Connection) : Type 0 where
  pub impl : c'.impl ≡ true
  pub send : c'.send_package ≡ c.send_package + t
  pub recv : c'.recv_package ≡ c.recv_package + h
  pub window : (t ≡ 0) ⊎ (c'.send_package ≤ c'.recv_package + 2)

abbrev pub Kept : ℕ → ℕ → Connection → Connection → Type 0
Kept t h c c' = c'.status.closing ≡ false → Counted t h c c'

Closed-Kept :
    (r w t h : ℕ) (c : Connection) (o : Option Connection)
    → Ends (Closed r w) o
    → Ends (Kept t h c) o
Closed-Kept r w t h c none e = e
Closed-Kept r w t h c (some c') e = λ o. ground (arith, o, e.closing)

read-Kept :
    (error : Bool) (decode : Connection → Bool × Connection) (f : Connection → Connection)
    (c : Connection)
    → Inv c
    → 0 < c.reads
    → IsDecode decode
    → IsOthers f
    → IsQuiet (read_done error decode f)
    → c.impl ≡ true
    → c.status.closing ≡ false
    → Ends (Kept 0 0 c) (completed (handle_read error decode f) (record c { reads = c.reads - 1 }))
unfolding completed handle_read
read-Kept error decode f c v p d o q i h =
    let c1 = record c { reads = c.reads - 1; shared = c.shared + 1 } in
    let c2 = set_reading c1 false in
    let c3 = (decode c1).1 in
    let c4 = set_reading c3 false in
    ground (
      arith,
      (d c1).shared,
      (d c1).exclusive,
      (d c1).impl,
      (d c1).socket,
      (d c1).connection,
      (d c1).closing,
      q c1,
      Closed-Kept c2.reads c2.writes 0 0 c (raw_disconnect true f c2),
      raw_disconnect-Closed true f c2 o,
      Closed-Kept c4.reads c4.writes 0 0 c (raw_disconnect true f c4),
      raw_disconnect-Closed true f c4 o,
    )

write-Kept :
    (error : Bool) (n : ℕ) (f : Connection → Connection) (c : Connection)
    → Inv c
    → 0 < c.writes
    → IsOthers f
    → c.impl ≡ true
    → c.status.closing ≡ false
    → Ends (Kept 0 0 c) (completed (handle_write error n f) (record c { writes = c.writes - 1 }))
unfolding completed handle_write
write-Kept error n f c v p o i h =
    let c1 = record c { writes = c.writes - 1; shared = c.shared + 1 } in
    let c2 = set_writing c1 false in
    ground (
      arith,
      Closed-Kept c2.reads c2.writes 0 0 c (raw_disconnect true f c2),
      raw_disconnect-Closed true f c2 o,
    )

oob-Kept :
    (error : Bool) (f : Connection → Connection) (c : Connection)
    → Inv c
    → 0 < c.oob_reads
    → IsOthers f
    → c.impl ≡ true
    → c.status.closing ≡ false
    → Ends
        (Kept 0 (if error then 0 else 1) c)
        (completed (oob_recv error f) (record c { oob_reads = c.oob_reads - 1 }))
unfolding completed oob_recv
oob-Kept error f c v p o i h =
    let c1 = record c { oob_reads = c.oob_reads - 1; shared = c.shared + 1 } in
    ground (
      arith,
      Closed-Kept c1.reads c1.writes 0 0 c (raw_disconnect true f c1),
      raw_disconnect-Closed true f c1 o,
    )

timer-Kept :
    (sent : Bool) (f : Connection → Connection) (c : Connection)
    → Inv c
    → IsOthers f
    → c.impl ≡ true
    → c.status.closing ≡ false
    → Ends (Kept 1 0 c) (expired sent f c)
unfolding expired heartbeat
timer-Kept sent f c v o i h =
    let c1 = record c { shared = c.shared + 1 } in
    let c2 = record c1 { send_package = c.send_package + 1 } in
    ground (
      arith,
      Closed-Kept c1.reads c1.writes 1 0 c (raw_disconnect true f c1),
      raw_disconnect-Closed true f c1 o,
      Closed-Kept c2.reads c2.writes 1 0 c (raw_disconnect true f c2),
      raw_disconnect-Closed true f c2 o,
    )

close-Kept :
    (f : Connection → Connection) (c : Connection)
    → Inv c
    → IsOthers f
    → c.impl ≡ true
    → c.status.closing ≡ false
    → Ends (Kept 0 0 c) (disconnect f c)
unfolding disconnect
close-Kept f c v o i h =
    let c1 = record c { shared = c.shared + 1 } in
    ground (
      arith,
      Closed-Kept c1.reads c1.writes 0 0 c (raw_disconnect false f c1),
      raw_disconnect-Closed false f c1 o,
    )

push-Kept :
    (item : Option (Bytes × Bytes)) (c : Connection)
    → Inv c
    → c.impl ≡ true
    → c.status.closing ≡ false
    → Ends (Kept 0 0 c) (step (push item) c)
unfolding step push_data internal_push_data
push-Kept none c v i h = ground arith
push-Kept (some (header, content)) c v i h = ground arith

schedule-Kept :
    (c : Connection)
    → Inv c
    → c.impl ≡ true
    → c.status.closing ≡ false
    → Ends (Kept 0 0 c) (step schedule c)
unfolding step schedule_write raw_schedule_write
schedule-Kept c v i h = ground arith

pub step-Kept :
    (e : Event) (c : Connection)
    → Inv c
    → IsEvent e c
    → IsQuiet e
    → c.impl ≡ true
    → c.status.closing ≡ false
    → Ends (Kept (ticks e) (heard e) c) (step e c)
unfolding step register_async_close_listener
step-Kept (read_done error decode f) c v h q i o = read-Kept error decode f c v h.0 h.1 h.2 q i o
step-Kept (write_done error n f) c v h q i o = write-Kept error n f c v h.0 h.1 i o
step-Kept (oob_done error f) c v h q i o = oob-Kept error f c v h.0 h.1 i o
step-Kept (timer sent f) c v h q i o = timer-Kept sent f c v h i o
step-Kept (push item) c v h q i o = push-Kept item c v i o
step-Kept schedule c v h q i o = schedule-Kept c v i o
step-Kept (close f) c v h q i o = close-Kept f c v h i o
step-Kept (listen l) c v h q i o = ground arith
