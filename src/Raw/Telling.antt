-- ===== src/Raw/Telling.antt =====
-- RawConnection.cpp and Connection.hpp: which of the close listeners have been called, `ImplClosed`.
use tt3d.Base.{
  ℕ, ◌+◌, ◌-◌, ◌<◌, ◌≡◌, arith, Bool, true, false, [], ◌++◌, Option, none, some, if◌then◌else◌,
}
use tt3d.Raw.{
  Connection, set_writing, set_reading, Event, read_done, write_done, oob_done, timer, push,
  schedule, close, listen, step, raw_disconnect, raw_schedule_write, handle_write, handle_read,
  oob_recv, heartbeat, completed, expired, schedule_write, push_data, internal_push_data,
  impl_closed, told,
}
use tt3d.Buffers.{Bytes}
use tt3d.Raw.Handlers.{Ends, Inv, IsOthers, IsEvent, IsDecode}

-- From an open connection: if it is closed now, each listener that has not expired has been called, in order, and all are
-- forgotten; if not, none.
pub record Tells (c c' : Connection) : Type 0 where
  pub notified :
      c'.notified
      ≡ (if c'.status.closing then c.notified ++ told c.held c.listeners else c.notified)
  pub listeners : c'.listeners ≡ (if c'.status.closing then [] else c.listeners)
  pub held : c'.held ≡ c.held

-- Another thread that closes the connection calls the listeners too.
abbrev pub IsCaller : (Connection → Connection) → Type 0
IsCaller f = (c : Connection) → c.status.closing ≡ false → Tells c (f c)

-- No listener is added or expires, and there is no call of `Connection::Disconnect`, which calls none.
abbrev pub IsTelling : Event → Type 0
IsTelling (read_done error decode f) =
    IsCaller f
    × ((c : Connection)
        → ((decode c).1.notified ≡ c.notified)
          × ((decode c).1.listeners ≡ c.listeners)
          × ((decode c).1.held ≡ c.held))
IsTelling (write_done error n f) = IsCaller f
IsTelling (oob_done error f) = IsCaller f
IsTelling (timer sent f) = IsCaller f
IsTelling (push item) = Unit
IsTelling schedule = Unit
IsTelling (close f) = ⊥
IsTelling (listen l) = ⊥

raw_disconnect-Tells :
    (f : Connection → Connection) (c : Connection)
    → IsOthers f
    → IsCaller f
    → c.shared ≡ 1
    → c.exclusive ≡ false
    → c.status.closing ≡ false
    → c.connection ≡ true
    → Ends (Tells c) (raw_disconnect true f c)
unfolding raw_disconnect impl_closed
raw_disconnect-Tells f c o t s x h n =
    let c1 = record c { shared = c.shared - 1 } in
    ground (
      arith,
      o.shared c1,
      o.exclusive c1,
      o.open' c1,
      (t c1 h).notified,
      (t c1 h).listeners,
      (t c1 h).held,
    )

module _ (c : Connection) (v : Inv c) (h : c.status.closing ≡ false) where
  read-Tells :
      (error : Bool) (decode : Connection → Bool × Connection) (f : Connection → Connection)
      → 0 < c.reads
      → IsDecode decode
      → IsOthers f
      → IsTelling (read_done error decode f)
      → Ends (Tells c) (step (read_done error decode f) c)
  unfolding step completed handle_read
  read-Tells error decode f p d o (t, q) =
      let c1 = record c { reads = c.reads - 1; shared = c.shared + 1 } in
      let c2 = set_reading c1 false in
      let c3 = (decode c1).1 in
      let c4 = set_reading c3 false in
      ground (
        arith,
        v.attached h (omega arith),
        v.live h (v.attached h (omega arith)),
        (d c1).shared,
        (d c1).exclusive,
        (d c1).impl,
        (d c1).socket,
        (d c1).connection,
        (d c1).closing,
        (q c1).0,
        (q c1).1,
        (q c1).2,
        raw_disconnect-Tells f c2 o t,
        raw_disconnect-Tells f c4 o t,
      )

  write-Tells :
      (error : Bool) (n : ℕ) (f : Connection → Connection)
      → 0 < c.writes
      → IsOthers f
      → IsCaller f
      → Ends (Tells c) (step (write_done error n f) c)
  unfolding step completed handle_write
  write-Tells error n f p o t =
      let c1 = record c { writes = c.writes - 1; shared = c.shared + 1 } in
      let c2 = set_writing c1 false in
      ground (
        arith,
        v.attached h (omega arith),
        v.live h (v.attached h (omega arith)),
        raw_disconnect-Tells f c2 o t,
      )

  oob-Tells :
      (error : Bool) (f : Connection → Connection)
      → 0 < c.oob_reads
      → IsOthers f
      → IsCaller f
      → Ends (Tells c) (step (oob_done error f) c)
  unfolding step completed oob_recv
  oob-Tells error f p o t =
      let c1 = record c { oob_reads = c.oob_reads - 1; shared = c.shared + 1 } in
      ground (
        arith,
        v.attached h (omega arith),
        v.live h (v.attached h (omega arith)),
        raw_disconnect-Tells f c1 o t,
      )

  timer-Tells :
      (sent : Bool) (f : Connection → Connection)
      → IsOthers f
      → IsCaller f
      → Ends (Tells c) (step (timer sent f) c)
  unfolding step expired heartbeat
  timer-Tells sent f o t =
      let c1 = record c { shared = c.shared + 1 } in
      let c2 = record c1 { send_package = c.send_package + 1 } in
      ground (arith, raw_disconnect-Tells f c1 o t, raw_disconnect-Tells f c2 o t)

  push-Tells : (item : Option (Bytes × Bytes)) → Ends (Tells c) (step (push item) c)
  unfolding step push_data internal_push_data
  push-Tells none = ground arith
  push-Tells (some (header, content)) = ground arith

  schedule-Tells : Ends (Tells c) (step schedule c)
  unfolding step schedule_write raw_schedule_write
  schedule-Tells = ground arith

  pub step-Tells : (e : Event) → IsEvent e c → IsTelling e → Ends (Tells c) (step e c)
  step-Tells (read_done error decode f) p t = read-Tells error decode f p.0 p.1 p.2 t
  step-Tells (write_done error n f) p t = write-Tells error n f p.0 p.1 t
  step-Tells (oob_done error f) p t = oob-Tells error f p.0 p.1 t
  step-Tells (timer sent f) p t = timer-Tells sent f p t
  step-Tells (push item) p t = push-Tells item
  step-Tells schedule p t = schedule-Tells
  step-Tells (close f) p t = absurd t
  step-Tells (listen l) p t = absurd t

-- A closing connection has the listeners that it had.
module _ (c : Connection) (v : Inv c) (h : c.status.closing ≡ true) where
  pub closing-kept :
      (e : Event)
      → IsTelling e
      → Ends
          (λ c'.
            (c'.listeners ≡ c.listeners)
            × (c'.notified ≡ c.notified)
            × (c'.held ≡ c.held)
            × (c'.status.closing ≡ true))
          (step e c)
  unfolding step completed expired push_data schedule_write
  closing-kept (read_done error decode f) t = ground (arith, v.unlocked)
  closing-kept (write_done error n f) t = ground (arith, v.unlocked)
  closing-kept (oob_done error f) t = ground (arith, v.unlocked)
  closing-kept (timer sent f) t = ground (arith, v.unlocked)
  closing-kept (push item) t = ground (arith, v.unlocked)
  closing-kept schedule t = ground (arith, v.unlocked)
  closing-kept (close f) t = absurd t
  closing-kept (listen l) t = absurd t
