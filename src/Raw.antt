-- ===== src/Raw.antt =====
-- A connection and its protocol half: src/core/network/Connection.hpp, RawConnection.hpp and
-- RawConnection.cpp. `none` is a fault: a failed assertion, a null socket, a lock that the thread
-- gives back without holding it, or one on which it would wait for itself.
-- The locks are those that the running thread holds on the status' `Mutex`. `meanwhile` is what
-- other threads do where the running one holds none.
mod State
pub mod Stream
pub mod Heartbeat
pub mod Beats
pub mod Silence
pub mod Handlers
pub mod Closing
pub mod Word
pub mod Gone
pub mod Telling
pub mod Told
pub mod Open
pub mod Like
mod Tests
unfoldable pub use State.*
use tt3d.Base.{
  ℕ, zero, suc, ◌+◌, ◌-◌, Bool, true, false, not, ◌&&◌, ◌||◌, List, [], ◌∷◌, ◌++◌, Option, none,
  some, ltb, ◌==◌, if◌then◌else◌, ◌>>=◌,
}
use tt3d.Buffers.{SharedConstBuffers, Bytes, new_buffers}
use tt3d.Buffers

-- The listeners that have not expired.
abbrev pub told : (ℕ → Bool) → List ℕ → List ℕ
told held [] = []
told held (l ∷ ls) = let rest = told held ls in if held l then l ∷ rest else rest

-- `ImplClosed`: each listener that has not expired is called, all are forgotten, and the protocol half is destroyed.
pub impl_closed : Connection → Connection
impl_closed c = record c {
  notified = c.notified ++ told c.held c.listeners;
  listeners = [];
  impl = false;
}

-- `RawConnection::Disconnect`, called with the shared lock held. The second test of `IsClosing` sees
-- what other threads did in between.
disconnect_closed : Bool → Connection → Option Connection
disconnect_closed async c =
    let closed = record c { socket = false; connection = false } in
    if async then (if c.connection then some (impl_closed closed) else none) else some closed

disconnect_locked : Bool → Connection → Option Connection
unfolding disconnect_closed
disconnect_locked async c =
    if c.status.closing then unlock c else unlock (set_closing c) >>= disconnect_closed async

pub raw_disconnect : Bool → (Connection → Connection) → Connection → Option Connection
unfolding disconnect_locked
raw_disconnect async meanwhile c =
    if c.status.closing
    then unlock_shared c
    else unlock_shared c >>= λ c1. lock_exclusive (meanwhile c1) >>= disconnect_locked async

-- `RawConnection::ScheduleWrite`, which always returns true.
unfoldable pub raw_schedule_write : Connection → Option Connection
raw_schedule_write c =
    if c.status.writing
    then some c
    else (let c1 = switch_io (set_writing c true) in
        if Buffers.empty (outcoming c1) then some (set_writing c1 false) else start_write c1)

-- `HandleWrite` with the error and the number of bytes that were written.
pub handle_write : Bool → ℕ → (Connection → Connection) → Connection → Option Connection
handle_write error n meanwhile c =
    let c1 = set_outcoming c (Buffers.consume (outcoming c) n) in
    let c2 = switch_io c1 in
    if not c.status.writing
    then none
    else if error
    then raw_disconnect true meanwhile (set_writing c false)
    else if not (Buffers.empty (outcoming c1))
    then start_write c1 >>= unlock_shared
    else if not (Buffers.empty (outcoming c2))
    then start_write c2 >>= unlock_shared
    else unlock_shared (set_writing c2 false)

-- `HandleRead` with the error, and with `Decode` as a parameter: its result and what the handlers
-- that it calls do to the connection.
pub handle_read :
    Bool
    → (Connection → Bool × Connection)
    → (Connection → Connection)
    → Connection
    → Option Connection
handle_read error decode meanwhile c =
    let (ok, c1) = decode c in
    if not c.status.reading
    then none
    else if error
    then raw_disconnect true meanwhile (set_reading c false)
    else if not ok
    then raw_disconnect true meanwhile (set_reading c1 false)
    else start_read c1 >>= unlock_shared

pub oob_recv : Bool → (Connection → Connection) → Connection → Option Connection
oob_recv error meanwhile c =
    if error
    then raw_disconnect true meanwhile c
    else start_oob_recv (record c { recv_package = c.recv_package + 1 }) >>= unlock_shared

abbrev pub heartbeat_unsync_window : ℕ
heartbeat_unsync_window = 2

-- `abs( send_package_ - recv_package_ )`
abbrev pub apart : ℕ → ℕ → ℕ
apart a b = (a - b) + (b - a)

-- `Heartbeat`; `sent` says whether the out-of-band byte went out.
pub heartbeat : Bool → (Connection → Connection) → Connection → Option Connection
heartbeat sent meanwhile c =
    let c1 = record c { send_package = c.send_package + 1 } in
    if not c.socket
    then none
    else if not sent
    then raw_disconnect true meanwhile c
    else if ltb heartbeat_unsync_window (apart c1.send_package c1.recv_package)
    then raw_disconnect true meanwhile c1
    else unlock_shared c1

-- `ReadHandler` and `WriteHandler`: the lock is taken, and a closing connection is left alone.
pub completed : (Connection → Option Connection) → Connection → Option Connection
completed member c =
    lock_shared c >>= λ c1. if c1.status.closing then unlock_shared c1 else member c1

-- `InitSocket`; the shared lock is held throughout.
unfoldable pub init_socket : Connection → Option Connection
init_socket c = lock_shared c >>= λ c1.
    if c1.status.closing
    then none
    else start_oob_recv (record c1 { socket = true; send_package = 0; recv_package = 0 }) >>= λ c2.
        start_read (set_reading c2 true) >>= unlock_shared

-- `ProtobufConnection::Attach`: a new protocol half takes the place of the old one.
unfoldable pub attach : Connection → Option Connection
unfolding init_socket
attach c = init_socket (record c {
  impl = true;
  connection = true;
  incoming_index = 0;
  duplex_0 = new_buffers;
  duplex_1 = new_buffers;
})

-- `ProtobufConnection::Span`: a new connection for a socket that was accepted.
unfoldable pub span : Option Connection
unfolding attach
span = attach new_connection

-- The methods of `Connection`.
unfoldable pub is_connected : Connection → Bool
is_connected c = not (is_idle c.status) && not c.status.closing

pub register_async_close_listener : ℕ → Connection → Connection
register_async_close_listener l c = record c { listeners = c.listeners ++ l ∷ [] }

pub disconnect : (Connection → Connection) → Connection → Option Connection
disconnect meanwhile c =
    if c.status.closing
    then some c
    else lock_shared c >>= λ c1.
        if c1.impl then raw_disconnect false meanwhile c1 else unlock_shared c1

pub expired : Bool → (Connection → Connection) → Connection → Option Connection
expired sent meanwhile c = lock_shared c >>= λ c1.
    if c1.status.closing
    then unlock_shared c1
    else if not c1.impl
    then unlock_shared c1
    else heartbeat sent meanwhile c1

-- With the scoped lock `Locker`; the result says whether the connection took it.
unfoldable pub schedule_write : Connection → Option (Bool × Connection)
schedule_write c = do
  c1 ← lock_shared c
  let taken = not c1.status.closing && c1.impl
  c2 ← if taken then raw_schedule_write c1 else some c1
  c3 ← unlock_shared c2
  some (taken, c3)

unfoldable pub push_data : Option (Bytes × Bytes) → Connection → Option (Bool × Connection)
push_data item c = do
  c1 ← lock_shared c
  let taken = not c1.status.closing && c1.impl
  c2 ← unlock_shared (if taken then internal_push_data item c1 else c1)
  some (taken, c2)

-- What happens to a connection: the completions of its asynchronous operations, and the calls.
pub data Event : Type 0 where
  read_done : Bool → (Connection → Bool × Connection) → (Connection → Connection) → Event
  write_done : Bool → ℕ → (Connection → Connection) → Event
  oob_done : Bool → (Connection → Connection) → Event
  timer : Bool → (Connection → Connection) → Event
  push : Option (Bytes × Bytes) → Event
  schedule : Event
  close : (Connection → Connection) → Event
  listen : ℕ → Event

pub step : Event → Connection → Option Connection
step (read_done error decode meanwhile) c =
    completed (handle_read error decode meanwhile) (record c { reads = c.reads - 1 })
step (write_done error n meanwhile) c =
    completed (handle_write error n meanwhile) (record c { writes = c.writes - 1 })
step (oob_done error meanwhile) c =
    completed (oob_recv error meanwhile) (record c { oob_reads = c.oob_reads - 1 })
step (timer sent meanwhile) c = expired sent meanwhile c
step (push item) c = push_data item c >>= λ r. some r.1
step schedule c = schedule_write c >>= λ r. some r.1
step (close meanwhile) c = disconnect meanwhile c
step (listen l) c = some (register_async_close_listener l c)
