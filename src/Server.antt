-- ===== src/Server.antt =====
-- src/server/network/Server.hpp and Server.cpp: the table of channels, the notifier that counts them, and
-- the lock that `Stop` waits for. A connection is a number. The acceptors, and the timers that
-- `HandleAccept` registers, are in Acceptors. `stop_shared` counts the shared holds of `stop_mutex_` that no thread gives back.
pub mod Channels
mod Tests
use tt3d.Base.{
  ℕ, zero, suc, ◌+◌, Bool, true, false, not, List, [], ◌∷◌, ◌++◌, Option, none, some, ◌==◌,
  if◌then◌else◌,
}
use tt3d.Base.Members.{find, erase}
use tt3d.Threads.{Notifier, pos, dec, inc, new_notifier}
use tt3d.Services.{IoServicePool, is_running, new_io_service_pool}
use tt3d.Services

pub record Server : Type 0 where
  pub io_service_pool : IoServicePool
  pub notifier : Notifier
  pub channels : List ℕ
  pub stop_shared : ℕ
  -- the channels that `Stop` has called `Disconnect` of, in order
  pub disconnected : List ℕ

unfoldable pub new_server : ℕ → ℕ → Server
new_server io_service_number worker_threads = record {
  io_service_pool = new_io_service_pool io_service_number worker_threads;
  notifier = new_notifier 1;
  channels = [];
  stop_shared = 0;
  disconnected = [];
}

-- The `hash_set` of channels.
insert : ℕ → List ℕ → List ℕ
insert c cs = if find c cs then cs else cs ++ c ∷ []

-- `HandleAccept`, with what `Span` yields and whether the close listener was registered.
pub handle_accept : Option ℕ → Bool → Server → Server
unfolding insert
handle_accept connection registered s =
    let s1 = record s { stop_shared = s.stop_shared + 1 } in
    if not (is_running s.io_service_pool) then s else elim connection [
      | none ↦ s1
      | some c ↦
          if not registered
          then s1
          else record s { channels = insert c s.channels; notifier = inc (pos 1) s.notifier }
    ]

pub connection_closed : ℕ → Server → Server
connection_closed c s =
    if find c s.channels
    then record s { channels = erase c s.channels; notifier = dec (pos 1) s.notifier }
    else s

-- The loop of `Stop` over the channels: each is disconnected and counted off.
dec_each : List ℕ → Notifier → Notifier
dec_each [] n = n
dec_each (c ∷ cs) n = dec_each cs (dec (pos 1) n)

-- `Stop`: `none` where it waits for the lock, or for a notification that has not come.
pub stop : Server → Option Server
unfolding dec_each
stop s =
    let notifier = dec (pos 1) (dec_each s.channels s.notifier) in
    if not (s.stop_shared == 0)
    then none
    else if not (is_running s.io_service_pool)
    then some s
    else if not notifier.notified
    then none
    else some (record s {
      notifier = notifier;
      channels = [];
      disconnected = s.disconnected ++ s.channels;
      io_service_pool = Services.stop s.io_service_pool;
    })
