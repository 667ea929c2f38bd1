-- ===== src/Methods/Sample.antt =====
-- A service, its table of handlers and an open connection, in which theorems are instantiated.
use tt3d.Base.{refl, arith, true, false, [], ◌∷◌, some}
use tt3d.Buffers.{new_buffers}
use tt3d.Buffers.Consume.{contents}
use tt3d.Raw.{Connection}
use tt3d.Raw.Open.{IsOpen}
use tt3d.Methods.{Service, HandlerTable}

-- Two methods, and a third service that has registered method 9.
abbrev pub two_methods : Service
two_methods = record {
  methods = 1 ∷ 2 ∷ [];
  full_name = λ n. n ∷ [];
  parses = λ n b. true;
  answer = λ n b. some (n ∷ b);
}

abbrev pub nine : HandlerTable
nine = (109, 9) ∷ (102, 2) ∷ []

abbrev pub nothing_else : Connection → Connection
nothing_else c = c

abbrev pub open_connection : Connection
open_connection = record {
  status = record { reading = true; writing = false; closing = false };
  shared = 0;
  exclusive = false;
  impl = true;
  listeners = [];
  held = λ l. true;
  notified = [];
  socket = true;
  connection = true;
  incoming_index = 0;
  duplex_0 = new_buffers;
  duplex_1 = new_buffers;
  send_package = 0;
  recv_package = 0;
  reads = 1;
  writes = 0;
  oob_reads = 1;
}

pub open_connection-IsOpen : IsOpen open_connection
unfolding contents
open_connection-IsOpen = record {
  open' = refl;
  impl = refl;
  unlocked = refl;
  socket = refl;
  in_order = record {
    index = omega arith;
    queue_0 = record { within = omega arith };
    queue_1 = record { within = omega arith };
    drained = λ h. refl;
  };
}
