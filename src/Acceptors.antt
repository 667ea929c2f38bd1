-- ===== src/Acceptors.antt =====
-- src/server/network/Server.hpp and Server.cpp: `Listen`, `AcceptorHandler`, `ReleaseAcceptor`, and what
-- `Stop` does beside the channels. A host is a number, and so is an `AcceptorResource`: its acceptor and its
-- socket. `none` is an exception, a failed `CHECK`, memory used after it was freed, or a wait without end.
pub mod Listening
pub mod Events
pub mod Release
mod Tests
use tt3d.Base.{
  ℕ, ◌+◌, Bool, true, false, not, ◌&&◌, List, [], ◌∷◌, ◌++◌, Option, none, some, ◌==◌,
  if◌then◌else◌, ◌>>=◌,
}
use tt3d.Base.Members.{find, erase}
use tt3d.Services.{is_running, get_io_service}
use tt3d.Services
use tt3d.Timer.{TimerMaster, Timers, new_timer_master, register}
use tt3d.Timer
use tt3d.Server.{Server, new_server, handle_accept}
use tt3d.Server

-- `acceptor_table_`
abbrev pub AcceptorTable : Type 0
AcceptorTable = List (ℕ × ℕ)

unfoldable pub find_host : ℕ → AcceptorTable → Option ℕ
find_host host [] = none
find_host host ((key, r) ∷ t) = if host == key then some r else find_host host t

-- `owned` are the resources that are allocated, `accepting` those that wait for a connection.
pub record Listener : Type 0 where
  pub server : Server
  pub timer_master : TimerMaster
  pub table : AcceptorTable
  pub owned : List ℕ
  pub accepting : List ℕ
  pub next : ℕ

pub new_listener : ℕ → ℕ → Listener
new_listener io_service_number worker_threads = record {
  server = new_server io_service_number worker_threads;
  timer_master = new_timer_master;
  table = [];
  owned = [];
  accepting = [];
  next = 0;
}

-- `AcceptorResource::Release`
unfoldable pub release : ℕ → Listener → Option Listener
release r a = if find r a.owned then some (record a { owned = erase r a.owned }) else none

pub release_acceptor : ℕ → Listener → Option Listener
unfolding release
release_acceptor host a = elim (find_host host a.table) [ none ↦ some a | some r ↦ release r a ]

-- `hash_map::insert` keeps what is there.
unfoldable pub insert_host : ℕ → ℕ → AcceptorTable → AcceptorTable
insert_host host r t = elim (find_host host t) [ none ↦ (host, r) ∷ t | some other ↦ t ]

-- `Listen`; `opens` says whether the address resolves and the acceptor opens, binds and listens.
pub listen : Bool → ℕ → Listener → Option Listener
unfolding insert_host
listen opens host a = do
  pool ← Services.start a.server.io_service_pool
  (service, pool1) ← get_io_service pool
  (service1, pool2) ← (if opens then get_io_service pool1 else none)
  let server = a.server
  some (record a {
    server = record server { io_service_pool = pool2 };
    timer_master = Timer.start a.timer_master;
    table = insert_host host a.next a.table;
    owned = a.next ∷ a.owned;
    accepting = a.next ∷ a.accepting;
    next = a.next + 1;
  })

module _ {W : Type 0} (t : Timers W) where
  -- `HandleAccept`, with the timer that it registers for a connection that goes into the table.
  unfoldable pub accept : W → Option ℕ → Bool → Listener → Option Listener
  accept w connection registered a =
      let b = record a { server = handle_accept connection registered a.server } in
      elim connection [
        | none ↦ some b
        | some c ↦
            if is_running a.server.io_service_pool && registered
            then (register t w c a.timer_master >>= λ m. some (record b { timer_master = m }))
            else some b
      ]

  -- `AcceptorHandler`: whether there was an error, whether the socket is open, and what `HandleAccept` is given.
  pub accept_handler : W → Bool → Bool → Option ℕ → Bool → ℕ → ℕ → Listener → Option Listener
  unfolding release_acceptor accept
  accept_handler w error is_open connection registered host r a =
      let done = record a { accepting = erase r a.accepting } in
      if error
      then release_acceptor host done
      else if not (find r a.owned)
      then none
      else if is_open
      then accept w connection registered a
      else some a

release_each : AcceptorTable → Listener → Option Listener
release_each [] a = some a
release_each ((host, r) ∷ t) a = release r a >>= release_each t

-- `Stop`
pub stop : Listener → Option Listener
unfolding release_each
stop a =
    let running = is_running a.server.io_service_pool in
    Server.stop a.server >>= λ s.
    if not running
    then some (record a { server = s })
    else release_each a.table (record a { server = s }) >>= λ b.
        some (record b { table = []; timer_master = Timer.stop b.timer_master })
