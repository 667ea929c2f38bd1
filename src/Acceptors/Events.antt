-- ===== src/Acceptors/Events.antt =====
-- Server.cpp: what may happen to a server that listens.
use tt3d.Base.{ℕ, ◌≡◌, subst, arith, Option-cases, true, false, Option, none, some, inl, inr}
use tt3d.Base.Members.{find}
use tt3d.Server.{handle_accept, connection_closed}
use tt3d.Server.Channels.{
  handle_accept-IsOpen, connection_closed-IsOpen, handle_accept-pool, closed-pool,
}
use tt3d.Timer.{Timers, TimerMaster, register}
use tt3d.Acceptors.{Listener, find_host, listen, accept, accept_handler}
use tt3d.Acceptors.Listening.{IsListening, with_server, listen-IsListening}

module _ {W : Type 0} (t : Timers W) where
  -- What may happen without an error: a new host is listened on, a connection comes in, a socket is not open,
  -- a connection is closed.
  pub data Runs (a : Listener) : Listener → Type 0 where
    begin : Runs a a
    listened :
        {b c : Listener} (host : ℕ)
        → Runs a b
        → find_host host b.table ≡ none
        → listen true host b ≡ some c
        → Runs a c
    connected :
        {b c : Listener} (w : W) (host r connection : ℕ)
        → Runs a b
        → find connection b.server.channels ≡ false
        → accept_handler t w false true (some connection) true host r b ≡ some c
        → Runs a c
    not_open :
        {b c : Listener} (w : W) (host r : ℕ)
        → Runs a b
        → accept_handler t w false false none true host r b ≡ some c
        → Runs a c
    closed :
        {b : Listener} (connection : ℕ)
        → Runs a b
        → Runs a (record b { server = connection_closed connection b.server })

with_timers :
    {a : Listener} (m : TimerMaster) → IsListening a → IsListening (record a { timer_master = m })
with_timers m l = record {
  open' = l.open';
  service = l.service;
  same = l.same;
  distinct = l.distinct;
  below = l.below;
}

one_result : {o : Option Listener} {b c : Listener} → o ≡ some b → o ≡ some c → b ≡ c
one_result e f = cc

module _ {W : Type 0} (t : Timers W) where
  accept-IsListening :
      (w : W) (connection : ℕ) (a c : Listener)
      → IsListening a
      → find connection a.server.channels ≡ false
      → accept t w (some connection) true a ≡ some c
      → IsListening c
  unfolding accept
  accept-IsListening w connection a c l f e =
      let server' = handle_accept (some connection) true a.server in
      let k =
        with_server server' l (handle_accept-IsOpen connection a.server l.open' f)
          (handle_accept-pool (some connection) true a.server) in
      elim (Option-cases (register t w connection a.timer_master)) [
        | inl n ↦ ground (arith, n, e, l.open'.running)
        | inr (m, n) ↦ subst IsListening (ground (arith, n, e, l.open'.running)) (with_timers m k)
      ]

  connected-IsListening :
      (w : W) (host r connection : ℕ) (a c : Listener)
      → IsListening a
      → find connection a.server.channels ≡ false
      → accept_handler t w false true (some connection) true host r a ≡ some c
      → IsListening c
  unfolding accept_handler
  connected-IsListening w host r connection a c l f e =
      accept-IsListening w connection a c l f (ground (arith, e))

  not_open-same :
      (w : W) (host r : ℕ) (a c : Listener)
      → accept_handler t w false false none true host r a ≡ some c
      → a ≡ c
  unfolding accept_handler
  not_open-same w host r a c e = ground (arith, e)

  pub runs-IsListening : (a b : Listener) → IsListening a → Runs t a b → IsListening b
  runs-IsListening a b l begin = l
  runs-IsListening a b l (listened {b = b1} host p f e) =
      let (c, q, k) = listen-IsListening host b1 (runs-IsListening a b1 l p) f in
      subst IsListening (one_result q e) k
  runs-IsListening a b l (connected {b = b1} w host r c p f e) =
      connected-IsListening w host r c b1 b (runs-IsListening a b1 l p) f e
  runs-IsListening a b l (not_open {b = b1} w host r p e) =
      subst IsListening (not_open-same w host r b1 b e) (runs-IsListening a b1 l p)
  runs-IsListening a b l (closed {b = b1} c p) =
      let o = runs-IsListening a b1 l p in
      with_server (connection_closed c b1.server) o (connection_closed-IsOpen c b1.server o.open')
        (closed-pool c b1.server)
