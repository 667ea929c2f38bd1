-- ===== src/Server/Channels.antt =====
-- Server.cpp: the notifier counts the channels and the server itself, so that a stop goes through.
use tt3d.Base.{
  ℕ, ◌+◌, ◌-◌, ◌≡◌, ◌∙◌, refl, arith, Bool, true, false, List, [], ◌∷◌, ◌++◌, Option, none, some,
  length, length-append,
}
use tt3d.Threads.{Notifier, pos, dec, inc, counted, negate}
use tt3d.Services.{IoServicePool, is_running, is_empty}
use tt3d.Services
use tt3d.Base.Members.{find, length-erase, length_positive}
use tt3d.Server.{Server, insert, handle_accept, connection_closed, dec_each, stop}

-- A server that runs.
pub record IsOpen (s : Server) : Type 0 where
  pub running : is_running s.io_service_pool ≡ true
  pub count : s.notifier.count ≡ length s.channels + 1
  pub silent : s.notifier.notified ≡ false
  pub unlocked : s.stop_shared ≡ 0

-- What happens to it: a connection is accepted, or one has closed.
pub data Event : Type 0 where
  accepted : ℕ → Event
  closed : ℕ → Event

abbrev pub serve : List Event → Server → Server
serve [] s = s
serve (accepted c ∷ es) s = serve es (handle_accept (some c) true s)
serve (closed c ∷ es) s = serve es (connection_closed c s)

-- Every connection that is accepted is a new one.
abbrev pub Fresh : List Event → Server → Type 0
Fresh [] s = Unit
Fresh (accepted c ∷ es) s = (find c s.channels ≡ false) × Fresh es (handle_accept (some c) true s)
Fresh (closed c ∷ es) s = Fresh es (connection_closed c s)

pub handle_accept-IsOpen :
    (c : ℕ) (s : Server)
    → IsOpen s
    → find c s.channels ≡ false
    → IsOpen (handle_accept (some c) true s)
unfolding handle_accept insert inc dec counted negate
handle_accept-IsOpen c s o f =
    ground (arith, length-append s.channels (c ∷ []), o.running, o.count, o.silent, o.unlocked)

pub connection_closed-IsOpen : (c : ℕ) (s : Server) → IsOpen s → IsOpen (connection_closed c s)
unfolding connection_closed dec counted
connection_closed-IsOpen c s o = ground (
  arith,
  length-erase c s.channels,
  length_positive c s.channels,
  o.running,
  o.count,
  o.silent,
  o.unlocked,
)

-- The pool stays as it is.
pub handle_accept-pool :
    (c : Option ℕ) (b : Bool) (s : Server)
    → (handle_accept c b s).io_service_pool ≡ s.io_service_pool
unfolding handle_accept
handle_accept-pool none b s = ground arith
handle_accept-pool (some c) b s = ground arith

pub closed-pool : (c : ℕ) (s : Server) → (connection_closed c s).io_service_pool ≡ s.io_service_pool
unfolding connection_closed
closed-pool c s = ground arith

serve-IsOpen : (es : List Event) (s : Server) → IsOpen s → Fresh es s → IsOpen (serve es s)
serve-IsOpen [] s o f = o
serve-IsOpen (accepted c ∷ es) s o f =
    serve-IsOpen es (handle_accept (some c) true s) (handle_accept-IsOpen c s o f.0) f.1
serve-IsOpen (closed c ∷ es) s o f =
    serve-IsOpen es (connection_closed c s) (connection_closed-IsOpen c s o) f

dec_each-count : (cs : List ℕ) (n : Notifier) → (dec_each cs n).count ≡ n.count - length cs
unfolding dec_each dec counted
dec_each-count [] n = omega arith
dec_each-count (c ∷ cs) n = ground (arith, dec_each-count cs (dec (pos 1) n))

dec-last : (n : Notifier) → n.count ≡ 1 → (dec (pos 1) n).notified ≡ true
unfolding dec counted
dec-last n h = ground arith

stop-is_running : (p : IoServicePool) → is_running (Services.stop p) ≡ false
unfolding Services.stop is_running is_empty
stop-is_running p = ground arith

pub stop_open :
    (s : Server)
    → IsOpen s
    → (t : Server) × (stop s ≡ some t)
      × (t.channels ≡ [])
      × (t.disconnected ≡ s.disconnected ++ s.channels)
      × (is_running t.io_service_pool ≡ false)
      × (t.notifier.notified ≡ true)
unfolding stop
stop_open s o =
    let notifier = dec (pos 1) (dec_each s.channels s.notifier) in
    let last =
      dec-last (dec_each s.channels s.notifier)
        (dec_each-count s.channels s.notifier ∙ omega (arith, o.count)) in
    (
      record s {
        notifier = notifier;
        channels = [];
        disconnected = s.disconnected ++ s.channels;
        io_service_pool = Services.stop s.io_service_pool;
      },
      ground (arith, o.running, o.unlocked, last),
      refl,
      refl,
      stop-is_running s.io_service_pool,
      last,
    )

-- A server that runs, and then accepts new connections and sees some of them close in any order, can be stopped: the
-- wait for the notifier ends, each channel that is left has been disconnected, and none stays in the table.
pub serve-stop :
    (es : List Event) (s : Server)
    → IsOpen s
    → Fresh es s
    → (t : Server) × (stop (serve es s) ≡ some t)
      × (t.channels ≡ [])
      × (t.disconnected ≡ (serve es s).disconnected ++ (serve es s).channels)
      × (is_running t.io_service_pool ≡ false)
      × (t.notifier.notified ≡ true)
serve-stop es s o f = stop_open (serve es s) (serve-IsOpen es s o f)
