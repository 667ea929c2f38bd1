-- ===== src/Server/Tests.antt =====
-- Server.cpp: the theorems at a server with one channel.
use tt3d.Base.{◌≡◌, refl, true, false, List, [], ◌∷◌, ◌++◌, some}
use tt3d.Threads.{ThreadPool}
use tt3d.Services.{IoServicePool, is_running, is_empty}
use tt3d.Base.Members.{find}
use tt3d.Server.{Server, stop}
use tt3d.Server.Channels.{IsOpen, Event, accepted, closed, serve, Fresh, serve-stop}

abbrev one_thread : ThreadPool
one_thread = record { size = 1; threads = 1; queue = []; workers = 1; ran = 0 ∷ [] }

abbrev one_service : IoServicePool
one_service = record {
  num_io_services = 1;
  num_threads = 1;
  services = 1;
  work = 0 ∷ [];
  next_io_service = 0;
  thread_pool = one_thread;
}

abbrev one_channel : Server
one_channel = record {
  io_service_pool = one_service;
  notifier = record { count = 2; notified = false };
  channels = 5 ∷ [];
  stop_shared = 0;
  disconnected = [];
}

one_service_runs : is_running one_service ≡ true
unfolding is_running is_empty
one_service_runs = refl

one_channel-IsOpen : IsOpen one_channel
one_channel-IsOpen = record {
  running = one_service_runs;
  count = refl;
  silent = refl;
  unlocked = refl;
}

abbrev one_more : List Event
one_more = accepted 6 ∷ closed 5 ∷ []

one_more-Fresh : Fresh one_more one_channel
unfolding find
one_more-Fresh = (refl, tt)

serve-stop_example :
    (t : Server) × (stop (serve one_more one_channel) ≡ some t)
    × (t.channels ≡ [])
    × (t.disconnected
        ≡ (serve one_more one_channel).disconnected ++ (serve one_more one_channel).channels)
    × (is_running t.io_service_pool ≡ false)
    × (t.notifier.notified ≡ true)
serve-stop_example = serve-stop one_more one_channel one_channel-IsOpen one_more-Fresh
