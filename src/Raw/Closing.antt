-- ===== src/Raw/Closing.antt =====
-- RawConnection.cpp and Connection.hpp: what a closing connection still does, and when the heartbeat
-- closes one.
use tt3d.Base.{not, leb, ◌&&◌, ℕ, ◌+◌, ◌≤◌, ◌≡◌, arith, Bool, true, false, Option, none, some}
use tt3d.Raw.{
  Connection, Event, listen, step, completed, disconnect, expired, heartbeat, schedule_write,
  push_data, register_async_close_listener, apart, raw_disconnect, read_done, write_done, oob_done,
  timer, push, schedule, close,
}
use tt3d.Raw.Handlers.{Ends, Inv, Closed, IsOthers, raw_disconnect-Closed}

-- Nothing but the list of listeners and the count of completions has changed.
pub record Unmoved (c c' : Connection) : Type 0 where
  pub status : c'.status ≡ c.status
  pub notified : c'.notified ≡ c.notified
  pub impl : c'.impl ≡ c.impl
  pub duplex_0 : c'.duplex_0 ≡ c.duplex_0
  pub duplex_1 : c'.duplex_1 ≡ c.duplex_1
  pub incoming_index : c'.incoming_index ≡ c.incoming_index
  pub reads : c'.reads ≤ c.reads
  pub writes : c'.writes ≤ c.writes
  pub oob_reads : c'.oob_reads ≤ c.oob_reads

-- Once a connection in order is closing, no event fails, starts an operation, moves bytes, or calls a
-- listener again.
pub step-Unmoved :
    (e : Event) (c : Connection) → Inv c → c.status.closing ≡ true → Ends (Unmoved c) (step e c)
unfolding step completed disconnect expired schedule_write push_data register_async_close_listener
step-Unmoved (read_done error decode f) c v h = ground arith
step-Unmoved (write_done error n f) c v h = ground arith
step-Unmoved (oob_done error f) c v h = ground arith
step-Unmoved (timer sent f) c v h = ground arith
step-Unmoved (push item) c v h = ground arith
step-Unmoved schedule c v h = ground arith
step-Unmoved (close f) c v h = ground arith
step-Unmoved (listen l) c v h = ground arith

pub Closed-closing :
    (r w : ℕ) (o : Option Connection) → Ends (Closed r w) o → Ends (λ c. c.status.closing ≡ true) o
Closed-closing r w none e = e
Closed-closing r w (some c) e = e.closing

-- An expired timer of an open connection in order, with its protocol half, closes it unless the heartbeat's byte went out and then the
-- numbers of heartbeats sent and received are at most two apart.
pub expired_window :
    (sent : Bool) (f : Connection → Connection) (c : Connection)
    → Inv c
    → IsOthers f
    → c.status.closing ≡ false
    → c.impl ≡ true
    → Ends
        (λ c'. c'.status.closing ≡ not (sent && leb (apart (c.send_package + 1) c.recv_package) 2))
        (expired sent f c)
unfolding expired heartbeat
expired_window sent f c v o h i =
    let c1 = record c { shared = c.shared + 1 } in
    let c2 = record c1 { send_package = c.send_package + 1 } in
    ground (
      arith,
      Closed-closing c1.reads c1.writes (raw_disconnect true f c1),
      raw_disconnect-Closed true f c1 o,
      Closed-closing c2.reads c2.writes (raw_disconnect true f c2),
      raw_disconnect-Closed true f c2 o,
    )
