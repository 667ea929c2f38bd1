-- ===== src/Raw/Gone.antt =====
-- RawConnection.cpp: a connection that was closed by `Disconnect` with `async` has lost its protocol half.
use tt3d.Base.{
  ℕ, ◌+◌, ◌-◌, ◌<◌, ◌≡◌, ◌∙◌, ap, sym, arith, Bool, true, false, Option, none, some, Bool-cases,
  inl, inr,
}
use tt3d.Raw.{
  Connection, set_writing, set_reading, Event, read_done, write_done, oob_done, timer, push,
  schedule, close, listen, step, raw_disconnect, raw_schedule_write, handle_write, handle_read,
  oob_recv, heartbeat, completed, expired, schedule_write, push_data, internal_push_data,
  register_async_close_listener, impl_closed,
}
use tt3d.Buffers.{Bytes}
use tt3d.Raw.Handlers.{Ends, Inv, IsOthers, IsEvent}
use tt3d.Raw.Closing.{Unmoved, step-Unmoved}

abbrev pub Gone : Connection → Type 0
Gone c = c.status.closing ≡ true → c.impl ≡ false

-- Another thread that closes the connection calls `ImplClosed` too.
abbrev pub IsThorough : (Connection → Connection) → Type 0
IsThorough f = (c : Connection) → c.status.closing ≡ false → Gone (f c)

-- No call of `Connection::Disconnect`, which leaves the half; and no bytes, which are not an event of the
-- connection alone.
abbrev pub IsLasting : Event → Type 0
IsLasting (read_done error decode f) = ⊥
IsLasting (write_done error n f) = IsThorough f
IsLasting (oob_done error f) = IsThorough f
IsLasting (timer sent f) = IsThorough f
IsLasting (push item) = Unit
IsLasting schedule = Unit
IsLasting (close f) = ⊥
IsLasting (listen l) = Unit

raw_disconnect-Gone :
    (f : Connection → Connection) (c : Connection)
    → IsOthers f
    → IsThorough f
    → c.shared ≡ 1
    → c.exclusive ≡ false
    → c.status.closing ≡ false
    → c.connection ≡ true
    → Ends Gone (raw_disconnect true f c)
unfolding raw_disconnect impl_closed
raw_disconnect-Gone f c o t s x h n =
    let c1 = record c { shared = c.shared - 1 } in
    ground (arith, o.shared c1, o.exclusive c1, o.open' c1, t c1)

-- A read whose bytes were handled elsewhere.
pub read-Gone :
    (error ok : Bool) (f : Connection → Connection) (c : Connection)
    → Inv c
    → 0 < c.reads
    → IsOthers f
    → IsThorough f
    → c.status.closing ≡ false
    → Ends Gone (step (read_done error (λ d. (ok, d)) f) c)
unfolding step completed handle_read
read-Gone error ok f c v p o t h =
    let c1 = record c { reads = c.reads - 1; shared = c.shared + 1 } in
    let c2 = set_reading c1 false in
    ground (
      arith,
      v.live h (v.attached h (omega arith)),
      v.attached h (omega arith),
      raw_disconnect-Gone f c2 o t,
    )

write-Gone :
    (error : Bool) (n : ℕ) (f : Connection → Connection) (c : Connection)
    → Inv c
    → 0 < c.writes
    → IsOthers f
    → IsThorough f
    → c.status.closing ≡ false
    → Ends Gone (completed (handle_write error n f) (record c { writes = c.writes - 1 }))
unfolding completed handle_write
write-Gone error n f c v p o t h =
    let c1 = record c { writes = c.writes - 1; shared = c.shared + 1 } in
    let c2 = set_writing c1 false in
    ground (
      arith,
      v.live h (v.attached h (omega arith)),
      v.attached h (omega arith),
      raw_disconnect-Gone f c2 o t,
    )

oob-Gone :
    (error : Bool) (f : Connection → Connection) (c : Connection)
    → Inv c
    → 0 < c.oob_reads
    → IsOthers f
    → IsThorough f
    → c.status.closing ≡ false
    → Ends Gone (completed (oob_recv error f) (record c { oob_reads = c.oob_reads - 1 }))
unfolding completed oob_recv
oob-Gone error f c v p o t h =
    let c1 = record c { oob_reads = c.oob_reads - 1; shared = c.shared + 1 } in
    ground (
      arith,
      v.live h (v.attached h (omega arith)),
      v.attached h (omega arith),
      raw_disconnect-Gone f c1 o t,
    )

timer-Gone :
    (sent : Bool) (f : Connection → Connection) (c : Connection)
    → Inv c
    → IsOthers f
    → IsThorough f
    → c.status.closing ≡ false
    → Ends Gone (expired sent f c)
unfolding expired heartbeat
timer-Gone sent f c v o t h =
    let c1 = record c { shared = c.shared + 1 } in
    let c2 = record c1 { send_package = c.send_package + 1 } in
    ground (arith, raw_disconnect-Gone f c1 o t, raw_disconnect-Gone f c2 o t)

push-Gone :
    (item : Option (Bytes × Bytes)) (c : Connection)
    → Inv c
    → c.status.closing ≡ false
    → Ends Gone (step (push item) c)
unfolding step push_data internal_push_data
push-Gone none c v h = ground arith
push-Gone (some (header, content)) c v h = ground arith

schedule-Gone : (c : Connection) → Inv c → c.status.closing ≡ false → Ends Gone (step schedule c)
unfolding step schedule_write raw_schedule_write
schedule-Gone c v h = ground arith

pub Unmoved-Gone :
    (c : Connection) (o : Option Connection) → Gone c → Ends (Unmoved c) o → Ends Gone o
Unmoved-Gone c none g e = e
Unmoved-Gone c (some c') g e = λ h. e.impl ∙ g (sym (ap (λ s. s.closing) e.status) ∙ h)

open-Gone :
    (e : Event) (c : Connection)
    → Inv c
    → IsEvent e c
    → IsLasting e
    → c.status.closing ≡ false
    → Ends Gone (step e c)
unfolding step register_async_close_listener
open-Gone (read_done error decode f) c v h l o = absurd l
open-Gone (write_done error n f) c v h l o = write-Gone error n f c v h.0 h.1 l o
open-Gone (oob_done error f) c v h l o = oob-Gone error f c v h.0 h.1 l o
open-Gone (timer sent f) c v h l o = timer-Gone sent f c v h l o
open-Gone (push item) c v h l o = push-Gone item c v o
open-Gone schedule c v h l o = schedule-Gone c v o
open-Gone (close f) c v h l o = absurd l
open-Gone (listen n) c v h l o = ground arith

-- Where a closed connection has lost its half, it has after each such event.
pub step-Gone :
    (e : Event) (c : Connection) → Inv c → IsEvent e c → IsLasting e → Gone c → Ends Gone (step e c)
step-Gone e c v h l g = elim (Bool-cases c.status.closing) [
  | inl o ↦ Unmoved-Gone c (step e c) g (step-Unmoved e c v o)
  | inr o ↦ open-Gone e c v h l o
]
