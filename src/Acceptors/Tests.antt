-- ===== src/Acceptors/Tests.antt =====
-- Server.cpp: the theorems about acceptors, at a server with one channel and two hosts.
use tt3d.Base.{ℕ, ◌≡◌, refl, arith, true, false, [], ◌∷◌, ◌++◌, none, some}
use tt3d.Base.Members.{find}
use tt3d.Services.{is_running, is_empty}
use tt3d.Timer.{Timers, new_timer_master}
use tt3d.Server.{Server, connection_closed}
use tt3d.Acceptors.{Listener, find_host, accept_handler, stop}
use tt3d.Acceptors.Listening.{IsListening}
use tt3d.Acceptors.Events.{Runs, begin, closed, not_open}
use tt3d.Acceptors.Release.{runs-stop, accept_error-stop}

abbrev one_channel : Server
one_channel = record {
  io_service_pool = record {
    num_io_services = 1;
    num_threads = 1;
    services = 1;
    work = 0 ∷ [];
    next_io_service = 0;
    thread_pool = record { size = 1; threads = 1; queue = []; workers = 1; ran = 0 ∷ [] };
  };
  notifier = record { count = 2; notified = false };
  channels = 5 ∷ [];
  stop_shared = 0;
  disconnected = [];
}

abbrev two_hosts : Listener
two_hosts = record {
  server = one_channel;
  timer_master = new_timer_master;
  table = (8, 1) ∷ (7, 0) ∷ [];
  owned = 1 ∷ 0 ∷ [];
  accepting = 1 ∷ 0 ∷ [];
  next = 2;
}

two_hosts-IsListening : IsListening two_hosts
unfolding is_running is_empty find
two_hosts-IsListening = record {
  open' = record { running = refl; count = refl; silent = refl; unlocked = refl };
  service = omega arith;
  same = refl;
  distinct = (refl, (refl, tt));
  below = (omega arith, (omega arith, tt));
}

-- Connections whose timers are not needed.
abbrev thirty : Timers ℕ
thirty = record {
  alive = λ w n. true;
  period = λ w n. true;
  timeout = λ w n. 30;
  expired = λ w n. w;
}

abbrev without_five : Listener
without_five = record two_hosts { server = connection_closed 5 one_channel }

a_quiet_day : Runs thirty two_hosts without_five
unfolding accept_handler find
a_quiet_day = not_open 0 7 0 (closed 5 begin) refl

runs-stop_example :
    (c : Listener) × (stop without_five ≡ some c)
    × (c.owned ≡ [])
    × (c.table ≡ [])
    × (c.server.channels ≡ [])
    × (c.server.disconnected ≡ without_five.server.disconnected ++ without_five.server.channels)
    × (is_running c.server.io_service_pool ≡ false)
runs-stop_example = runs-stop thirty two_hosts without_five two_hosts-IsListening a_quiet_day

accept_error-stop_example :
    (b : Listener) × (accept_handler thirty 0 true false none true 7 0 two_hosts ≡ some b)
    × (stop b ≡ none)
unfolding find_host
accept_error-stop_example =
    accept_error-stop thirty 0 7 0 two_hosts false two_hosts-IsListening refl
