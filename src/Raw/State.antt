-- ===== src/Raw/State.antt =====
-- RawConnection.hpp and Connection.hpp: the state of a connection, its locks, its two buffers, and the
-- asynchronous operations that it starts.
use tt3d.Base.{
  ℕ, ◌+◌, ◌-◌, Bool, true, false, not, ◌||◌, List, [], Option, none, some, ◌==◌, if◌then◌else◌,
}
use tt3d.Buffers.{SharedConstBuffers, Bytes, new_buffers}
use tt3d.Buffers

-- The bits of `RawConnectionStatus`.
pub record Status : Type 0 where
  pub reading : Bool
  pub writing : Bool
  pub closing : Bool

abbrev pub idle : Status
idle = record { reading = false; writing = false; closing = false }

abbrev pub is_idle : Status → Bool
is_idle s = not (s.reading || s.writing || s.closing)

pub record Connection : Type 0 where
  -- of the class `Connection`
  pub status : Status
  pub shared : ℕ
  pub exclusive : Bool
  pub impl : Bool
  pub listeners : List ℕ
  -- whether the `weak_ptr` of a listener still locks
  pub held : ℕ → Bool
  pub notified : List ℕ
  -- of its `RawConnection`
  pub socket : Bool
  pub connection : Bool
  pub incoming_index : ℕ
  pub duplex_0 : SharedConstBuffers
  pub duplex_1 : SharedConstBuffers
  pub send_package : ℕ
  pub recv_package : ℕ
  -- the asynchronous operations that have been started and not completed
  pub reads : ℕ
  pub writes : ℕ
  pub oob_reads : ℕ

unfoldable pub new_connection : Connection
new_connection = record {
  status = idle;
  shared = 0;
  exclusive = false;
  impl = false;
  listeners = [];
  held = λ l. true;
  notified = [];
  socket = false;
  connection = false;
  incoming_index = 0;
  duplex_0 = new_buffers;
  duplex_1 = new_buffers;
  send_package = 0;
  recv_package = 0;
  reads = 0;
  writes = 0;
  oob_reads = 0;
}

abbrev pub set_reading : Connection → Bool → Connection
set_reading c b = let s = c.status in record c { status = record s { reading = b } }

abbrev pub set_writing : Connection → Bool → Connection
set_writing c b = let s = c.status in record c { status = record s { writing = b } }

abbrev pub set_closing : Connection → Connection
set_closing c = let s = c.status in record c { status = record s { closing = true } }

abbrev pub lock_shared : Connection → Option Connection
lock_shared c = if c.exclusive then none else some (record c { shared = c.shared + 1 })

abbrev pub unlock_shared : Connection → Option Connection
unlock_shared c = if c.shared == 0 then none else some (record c { shared = c.shared - 1 })

-- `lock_upgrade` and `unlock_upgrade_and_lock`.
abbrev pub lock_exclusive : Connection → Option Connection
lock_exclusive c =
    if c.exclusive || not (c.shared == 0) then none else some (record c { exclusive = true })

abbrev pub unlock : Connection → Option Connection
unlock c = if c.exclusive then some (record c { exclusive = false }) else none

abbrev pub incoming : Connection → SharedConstBuffers
incoming c = if c.incoming_index == 0 then c.duplex_0 else c.duplex_1

abbrev pub outcoming : Connection → SharedConstBuffers
outcoming c = if 1 - c.incoming_index == 0 then c.duplex_0 else c.duplex_1

abbrev pub set_incoming : Connection → SharedConstBuffers → Connection
set_incoming c b =
    if c.incoming_index == 0 then record c { duplex_0 = b } else record c { duplex_1 = b }

abbrev pub set_outcoming : Connection → SharedConstBuffers → Connection
set_outcoming c b =
    if 1 - c.incoming_index == 0 then record c { duplex_0 = b } else record c { duplex_1 = b }

abbrev pub switch_io : Connection → Connection
switch_io c = record c { incoming_index = 1 - c.incoming_index }

-- `InternalPushData`: the header and the content; a pair of null pointers is dropped.
unfoldable pub internal_push_data : Option (Bytes × Bytes) → Connection → Connection
internal_push_data none c = c
internal_push_data (some (header, content)) c =
    let c1 = set_incoming c (Buffers.push (incoming c) header) in
    set_incoming c1 (Buffers.push (incoming c1) content)

-- The asynchronous operations need the socket.
abbrev pub start_read : Connection → Option Connection
start_read c = if c.socket then some (record c { reads = c.reads + 1 }) else none

abbrev pub start_write : Connection → Option Connection
start_write c = if c.socket then some (record c { writes = c.writes + 1 }) else none

abbrev pub start_oob_recv : Connection → Option Connection
start_oob_recv c = if c.socket then some (record c { oob_reads = c.oob_reads + 1 }) else none
