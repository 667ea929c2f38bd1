-- ===== src/Rpc/Life.antt =====
-- A client's whole life: its calls (ProtobufConnection.cpp, RawProtobufConnection.cpp), the bytes that it reads and the
-- other events of its connection (RawConnection.cpp), with `ImplClosed`, which destroys the protocol half and so
-- releases the table of handlers.
use tt3d.Base.{
  ℕ, ◌+◌, ◌<◌, ◌≡◌, Bool, true, false, not, ◌&&◌, ◌||◌, Option, none, some, length, if◌then◌else◌,
  ◌>>=◌,
}
use tt3d.Wire.{Bytes, Codec, Decoder, Outcome, goes_on, closes, decode_bytes}
use tt3d.Wire.World.{or_fault, Stands}
use tt3d.Raw.{Connection, Event, step, read_done}
use tt3d.Raw.Handlers.{IsEvent, IsOthers}
use tt3d.Raw.Heartbeat.{ticks, heard, IsQuiet}
use tt3d.Raw.Gone.{IsThorough, IsLasting}
use tt3d.Methods.{Service}
use tt3d.Rpc.{Call, Client, keys, call_method, handle, release_response_table}
use tt3d.Rpc.Times.{weight}

-- A client with the decoder of its protocol half.
pub record Living : Type 0 where
  pub client : Client
  pub decoder : Decoder

pub data ClientEvent : Type 0 where
  calls : ℕ → ℕ → Option Bytes → Call → ClientEvent
  reads : Bool → Bytes → (Connection → Connection) → ClientEvent
  happens : Event → ClientEvent

abbrev pub with_connection : Connection → Living → Living
with_connection c l = let s = l.client in record l { client = record s { connection = c } }

module _ (k : Codec) (meanwhile : Connection → Connection) (service : Service)
    (parses : ℕ → Bytes → Bool) where
  -- Where the half was there and is not any more, its destructor has run.
  abbrev pub settle : Bool → Living → Living
  settle had l =
      if had && not l.client.connection.impl
      then record l { client = release_response_table parses l.client }
      else l

  -- An exception of the decoder leaves `HandleRead` and ends the process, and so does a fault of a handler.
  abbrev pub taken_in : Living → Outcome (Option Client) → Option (Bool × Living)
  taken_in l (goes_on d (some s)) = some (true, record { client = s; decoder = d })
  taken_in l (closes (some s)) = some (false, record l { client = s })
  taken_in l other = none

  -- `Decode` of a read, with `RawProtobufConnection::Handle` of a connection without services.
  unfoldable pub decode_client : Bytes → Living → Option (Bool × Living)
  decode_client bytes l = taken_in l (
      decode_bytes k (or_fault (handle k meanwhile service none parses)) l.decoder bytes
        (some l.client))

  -- `Decode` is called if there was no error and the connection is not closing.
  unfoldable pub client_step : ClientEvent → Living → Option Living
  unfolding decode_client
  client_step (calls identify hash content call) l =
      call_method k identify hash content call l.client >>= λ s. some (record l { client = s })
  client_step (reads error bytes f) l =
      let c = l.client.connection in
      (if c.status.closing || error then some (true, l) else decode_client bytes l) >>= λ r.
      step (read_done error (λ d. (r.0, d)) f) c >>= λ c1.
      some (settle c.impl (with_connection c1 r.1))
  client_step (happens e) l =
      let c = l.client.connection in step e c >>= λ c1. some (settle c.impl (with_connection c1 l))

  -- What is assumed of an event: what is assumed of the connection's; the identifies have 64 bits, the counter stays an
  -- `int`, and where bytes are decoded, the lengths in them throw no exception.
  abbrev pub IsClientEvent : ClientEvent → Living → Type 0
  IsClientEvent (calls identify hash content call) l =
      (hash < 18446744073709551616)
      × (l.client.seq + (length (keys l.client.table) + 1) < 2147483648)
  IsClientEvent (reads error bytes f) l =
      (0 < l.client.connection.reads)
      × IsOthers f
      × IsThorough f
      × ((l.client.connection.status.closing || error) ≡ false
          → Stands (
              decode_bytes k (or_fault (handle k meanwhile service none parses)) l.decoder bytes
                (some l.client)))
  IsClientEvent (happens e) l = IsEvent e l.client.connection × IsQuiet e × IsLasting e

-- The heartbeats, and the closures that are given.
abbrev pub client_ticks : ClientEvent → ℕ
client_ticks (calls identify hash content call) = 0
client_ticks (reads error bytes f) = 0
client_ticks (happens e) = ticks e

abbrev pub client_heard : ClientEvent → ℕ
client_heard (calls identify hash content call) = 0
client_heard (reads error bytes f) = 0
client_heard (happens e) = heard e

abbrev pub closures_given : ℕ → ClientEvent → ℕ
closures_given m (calls identify hash content call) = weight m call
closures_given m (reads error bytes f) = 0
closures_given m (happens e) = 0
