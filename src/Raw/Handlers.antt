-- ===== src/Raw/Handlers.antt =====
-- RawConnection.cpp and Connection.hpp: every handler ends without a fault, gives back the locks that
-- it took, and keeps at most one read and one write of the socket outstanding.
use tt3d.Base.{ℕ, ◌+◌, ◌-◌, ◌<◌, ◌≤◌, ◌≡◌, ◌⊎◌, arith, Bool, true, false, Option, none, some}
use tt3d.Buffers.{Bytes}
use tt3d.Raw.{
  Connection, set_writing, set_reading, Event, read_done, write_done, oob_done, timer, push,
  schedule, close, listen, step, raw_disconnect, raw_schedule_write, handle_write, handle_read,
  oob_recv, heartbeat, completed, span, new_connection, disconnect, expired, schedule_write,
  push_data, internal_push_data, register_async_close_listener, impl_closed,
}

-- The call ends, and then `P` holds.
abbrev pub Ends : (Connection → Type 0) → Option Connection → Type 0
Ends P none = ⊥
Ends P (some c) = P c

-- The flag of an operation is set exactly while one is outstanding.
abbrev pub Flagged : Bool → ℕ → Type 0
Flagged true n = n ≡ 1
Flagged false n = n ≡ 0

pub record Inv (c : Connection) : Type 0 where
  pub unshared : c.shared ≡ 0
  pub unlocked : c.exclusive ≡ false
  pub one_read : c.reads ≤ 1
  pub one_write : c.writes ≤ 1
  pub attached : c.status.closing ≡ false → 0 < c.reads + c.writes + c.oob_reads → c.impl ≡ true
  pub live : c.status.closing ≡ false → c.impl ≡ true → (c.socket ≡ true) × (c.connection ≡ true)
  pub reading : c.status.closing ≡ false → Flagged c.status.reading c.reads
  pub writing : c.status.closing ≡ false → Flagged c.status.writing c.writes

-- Other threads, while this one holds no lock: they give back the locks that they take, leave at most one read and one
-- write of the socket outstanding, which they may start and complete, and drop the back pointer only when they close
-- the connection.
pub record IsOthers (f : Connection → Connection) : Type 0 where
  pub shared : (c : Connection) → (f c).shared ≡ c.shared
  pub exclusive : (c : Connection) → (f c).exclusive ≡ c.exclusive
  pub reads : (c : Connection) → c.reads ≤ 1 → (f c).reads ≤ 1
  pub writes : (c : Connection) → c.writes ≤ 1 → (f c).writes ≤ 1
  pub open' : (c : Connection) → ((f c).connection ≡ c.connection) ⊎ ((f c).status.closing ≡ true)

-- After `Disconnect`: closing, and no lock is held.
pub record Closed (r w : ℕ) (c : Connection) : Type 0 where
  pub closing : c.status.closing ≡ true
  pub unshared : c.shared ≡ 0
  pub unlocked : c.exclusive ≡ false
  pub reads : r ≤ 1 → c.reads ≤ 1
  pub writes : w ≤ 1 → c.writes ≤ 1

pub raw_disconnect-Closed :
    (async : Bool) (f : Connection → Connection) (c : Connection)
    → IsOthers f
    → c.shared ≡ 1
    → c.exclusive ≡ false
    → (c.status.closing ≡ true) ⊎ (c.connection ≡ true)
    → Ends (Closed c.reads c.writes) (raw_disconnect async f c)
unfolding raw_disconnect impl_closed
raw_disconnect-Closed async f c o s x l =
    let c1 = record c { shared = c.shared - 1 } in
    ground (arith, o.shared c1, o.exclusive c1, o.reads c1, o.writes c1, o.open' c1)

-- The locks, the socket and the reads stay as they are, and writes are started with their flag.
pub record Like (c c' : Connection) : Type 0 where
  pub shared : c'.shared ≡ c.shared
  pub exclusive : c'.exclusive ≡ c.exclusive
  pub impl : c'.impl ≡ c.impl
  pub socket : c'.socket ≡ c.socket
  pub connection : c'.connection ≡ c.connection
  pub closing : c'.status.closing ≡ c.status.closing
  pub reads : c'.reads ≡ c.reads
  pub reading : c'.status.reading ≡ c.status.reading
  pub writing : Flagged c.status.writing c.writes → Flagged c'.status.writing c'.writes

-- What a handler called from `Decode` may do: write, but neither lock, read nor disconnect.
abbrev pub IsDecode : (Connection → Bool × Connection) → Type 0
IsDecode f = (c : Connection) → Like c (f c).1

-- What is assumed of an event: a completion has been asked for, and the parameters behave.
abbrev pub IsEvent : Event → Connection → Type 0
IsEvent (read_done error decode meanwhile) c = (0 < c.reads) × IsDecode decode × IsOthers meanwhile
IsEvent (write_done error n meanwhile) c = (0 < c.writes) × IsOthers meanwhile
IsEvent (oob_done error meanwhile) c = (0 < c.oob_reads) × IsOthers meanwhile
IsEvent (timer sent meanwhile) c = IsOthers meanwhile
IsEvent (push item) c = Unit
IsEvent schedule c = Unit
IsEvent (close meanwhile) c = IsOthers meanwhile
IsEvent (listen l) c = Unit

-- A closing connection is never looked at again.
Closed-Inv : (r w : ℕ) (o : Option Connection) → r ≤ 1 → w ≤ 1 → Ends (Closed r w) o → Ends Inv o
Closed-Inv r w none hr hw e = e
Closed-Inv r w (some c) hr hw e = ground arith

handle_read-Inv :
    (error : Bool) (decode : Connection → Bool × Connection) (f : Connection → Connection)
    (c : Connection)
    → Inv c
    → 0 < c.reads
    → IsDecode decode
    → IsOthers f
    → Ends Inv (completed (handle_read error decode f) (record c { reads = c.reads - 1 }))
unfolding completed handle_read
handle_read-Inv error decode f c v p d o =
    let c1 = record c { reads = c.reads - 1; shared = c.shared + 1 } in
    let c2 = set_reading c1 false in
    let c3 = (decode c1).1 in
    let c4 = set_reading c3 false in
    ground (
      arith,
      (d c1).shared,
      (d c1).exclusive,
      (d c1).impl,
      (d c1).socket,
      (d c1).connection,
      (d c1).closing,
      (d c1).reads,
      (d c1).reading,
      (d c1).writing,
      Closed-Inv c2.reads c2.writes (raw_disconnect true f c2),
      raw_disconnect-Closed true f c2 o,
      Closed-Inv c4.reads c4.writes (raw_disconnect true f c4),
      raw_disconnect-Closed true f c4 o,
    )

handle_write-Inv :
    (error : Bool) (n : ℕ) (f : Connection → Connection) (c : Connection)
    → Inv c
    → 0 < c.writes
    → IsOthers f
    → Ends Inv (completed (handle_write error n f) (record c { writes = c.writes - 1 }))
unfolding completed handle_write
handle_write-Inv error n f c v p o =
    let c1 = record c { writes = c.writes - 1; shared = c.shared + 1 } in
    let c2 = set_writing c1 false in
    ground (
      arith,
      Closed-Inv c2.reads c2.writes (raw_disconnect true f c2),
      raw_disconnect-Closed true f c2 o,
    )

oob_recv-Inv :
    (error : Bool) (f : Connection → Connection) (c : Connection)
    → Inv c
    → 0 < c.oob_reads
    → IsOthers f
    → Ends Inv (completed (oob_recv error f) (record c { oob_reads = c.oob_reads - 1 }))
unfolding completed oob_recv
oob_recv-Inv error f c v p o =
    let c1 = record c { oob_reads = c.oob_reads - 1; shared = c.shared + 1 } in
    ground (
      arith,
      Closed-Inv c1.reads c1.writes (raw_disconnect true f c1),
      raw_disconnect-Closed true f c1 o,
    )

expired-Inv :
    (sent : Bool) (f : Connection → Connection) (c : Connection)
    → Inv c
    → IsOthers f
    → Ends Inv (expired sent f c)
unfolding expired heartbeat
expired-Inv sent f c v o =
    let c1 = record c { shared = c.shared + 1 } in
    let c2 = record c1 { send_package = c.send_package + 1 } in
    ground (
      arith,
      Closed-Inv c1.reads c1.writes (raw_disconnect true f c1),
      raw_disconnect-Closed true f c1 o,
      Closed-Inv c2.reads c2.writes (raw_disconnect true f c2),
      raw_disconnect-Closed true f c2 o,
    )

push-Inv : (item : Option (Bytes × Bytes)) (c : Connection) → Inv c → Ends Inv (step (push item) c)
unfolding step push_data internal_push_data
push-Inv none c v = ground arith
push-Inv (some (header, content)) c v = ground arith

schedule-Inv : (c : Connection) → Inv c → Ends Inv (step schedule c)
unfolding step schedule_write raw_schedule_write
schedule-Inv c v = ground arith

disconnect-Inv :
    (f : Connection → Connection) (c : Connection) → Inv c → IsOthers f → Ends Inv (disconnect f c)
unfolding disconnect
disconnect-Inv f c v o =
    let c1 = record c { shared = c.shared + 1 } in
    ground (
      arith,
      Closed-Inv c1.reads c1.writes (raw_disconnect false f c1),
      raw_disconnect-Closed false f c1 o,
    )

-- In a connection in order an event ends without a fault and leaves it in order: with no lock held, and with at most one
-- read and one write of the socket outstanding, each while its flag is set if the connection is open. An operation
-- completes only if one is outstanding; `Decode` may start a write, but neither lock, read nor disconnect; and what
-- other threads do while `Disconnect` holds no lock keeps to `IsOthers`: they give back their own locks, leave at most
-- one read and one write outstanding, and drop the back pointer only when they close the connection.
pub step-Inv : (e : Event) (c : Connection) → Inv c → IsEvent e c → Ends Inv (step e c)
unfolding step register_async_close_listener
step-Inv (read_done error decode f) c v h = handle_read-Inv error decode f c v h.0 h.1 h.2
step-Inv (write_done error n f) c v h = handle_write-Inv error n f c v h.0 h.1
step-Inv (oob_done error f) c v h = oob_recv-Inv error f c v h.0 h.1
step-Inv (timer sent f) c v h = expired-Inv sent f c v h
step-Inv (push item) c v h = push-Inv item c v
step-Inv schedule c v h = schedule-Inv c v
step-Inv (close f) c v h = disconnect-Inv f c v h
step-Inv (listen l) c v h = ground arith

-- `Span` yields a connection in such a state.
pub span-Inv : Ends Inv span
unfolding span new_connection
span-Inv = ground arith
