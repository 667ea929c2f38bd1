-- ===== src/ClientConnection.antt =====
-- src/core/network/ClientConnection.hpp and .cpp: the connection that a program opens itself, over the models of
-- its pool, its timers and the connection. `none` is an exception, a failed `CHECK` or assertion.
pub mod Connect
pub mod Silent
mod Tests
use tt3d.Base.{
  ℕ, zero, suc, ◌+◌, Bool, true, false, not, List, [], ◌∷◌, Option, none, some, if◌then◌else◌,
  ◌>>=◌,
}
use tt3d.Services.{IoServicePool, new_io_service_pool, get_io_service}
use tt3d.Services
use tt3d.Timer.{TimerMaster, Timers, new_timer_master, register}
use tt3d.Timer
use tt3d.Raw.{Connection, new_connection, attach, is_connected, expired}

abbrev pub client_thread_pool_size : ℕ
client_thread_pool_size = 1

pub record ClientConnection : Type 0 where
  pub io_service_pool : IoServicePool
  pub timer_master : TimerMaster
  pub connection : Connection

unfoldable pub new_client_connection : ClientConnection
new_client_connection = record {
  io_service_pool = new_io_service_pool 1 client_thread_pool_size;
  timer_master = new_timer_master;
  connection = new_connection;
}

-- `Timeout`, `Period` and `Expired` of the connection, as its timer master calls them: it has the number 0. `sent` says
-- whether a heartbeat goes out, `meanwhile` is what other threads do.
abbrev pub timer_of : Bool → (Connection → Connection) → Timers (Option Connection)
timer_of sent meanwhile = record {
  alive = λ w n. elim w [ none ↦ false | some c ↦ true ];
  period = λ w n. elim w [ none ↦ false | some c ↦ is_connected c ];
  timeout = λ w n. 30;
  expired = λ w n. w >>= expired sent meanwhile;
}

-- The loop over the endpoints, each of which accepts a connection or not: whether one did.
unfoldable pub try_each : List Bool → Bool
try_each [] = false
try_each (accepts ∷ rest) = let later = try_each rest in if accepts then true else later

-- `Connect`, with the endpoints that the resolver yields, or `none` where it throws.
module _ (t : Timers (Option Connection)) where
  -- What follows once a socket is connected.
  unfoldable pub attach_socket : ClientConnection → Option ClientConnection
  attach_socket s =
      if s.connection.impl
      then none
      else attach s.connection >>= λ c. register t (some c) 0 s.timer_master >>= λ m.
          some (record s { connection = c; timer_master = m })

  pub connect : Option (List Bool) → ClientConnection → Option (Bool × ClientConnection)
  unfolding attach_socket try_each
  connect resolved s = if is_connected s.connection then some (true, s) else do
    pool ← Services.start s.io_service_pool
    (service, pool1) ← get_io_service pool
    endpoints ← resolved
    (service1, pool2) ← get_io_service pool1
    let s1 = record s { io_service_pool = pool2; timer_master = Timer.start s.timer_master }
    elim (try_each endpoints) [
      | false ↦ some (false, s1)
      | true ↦ attach_socket s1 >>= λ s2. some (true, s2)
    ]
