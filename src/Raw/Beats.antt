-- ===== src/Raw/Beats.antt =====
-- RawConnection.cpp and Connection.hpp: exactly which sequences of heartbeats, `Expired` and `OOBRecv` without an
-- error, keep a connection open.
use tt3d.Base.{
  not, leb, ◌&&◌, ℕ, ◌+◌, ◌≡◌, sym, refl, subst, inl, inr, arith, Bool, true, false, List, [], ◌∷◌,
  Option, none, some, if◌then◌else◌, ◌>>=◌, Bool-cases,
}
use tt3d.Raw.{
  Connection, step, completed, expired, heartbeat, oob_recv, apart, raw_disconnect, oob_done, timer,
}
use tt3d.Raw.Handlers.{Ends, Inv, Closed, IsOthers, raw_disconnect-Closed}

-- `true` is an expiry of the timer whose byte goes out, `false` a byte that comes in.
abbrev pub beat : (Connection → Connection) → Bool → Connection → Option Connection
beat f b c = step (if b then timer true f else oob_done false f) c

pub beats : (Connection → Connection) → List Bool → Connection → Option Connection
beats f [] c = some c
beats f (b ∷ bs) c = beat f b c >>= beats f bs

-- At every expiry the numbers sent and received are at most two apart.
abbrev pub in_window : List Bool → ℕ → ℕ → Bool
in_window [] sent received = true
in_window (true ∷ bs) sent received =
    leb (apart (sent + 1) received) 2 && in_window bs (sent + 1) received
in_window (false ∷ bs) sent received = in_window bs sent (received + 1)

record Live (s r : ℕ) (c : Connection) : Type 0 where
  open' : c.status.closing ≡ false
  unshared : c.shared ≡ 0
  unlocked : c.exclusive ≡ false
  impl : c.impl ≡ true
  socket : c.socket ≡ true
  connection : c.connection ≡ true
  send : c.send_package ≡ s
  recv : c.recv_package ≡ r

record Shut (c : Connection) : Type 0 where
  closing : c.status.closing ≡ true
  unshared : c.shared ≡ 0
  unlocked : c.exclusive ≡ false

Closed-Shut : (r w : ℕ) (o : Option Connection) → Ends (Closed r w) o → Ends Shut o
Closed-Shut r w none e = e
Closed-Shut r w (some c) e = record {
  closing = e.closing;
  unshared = e.unshared;
  unlocked = e.unlocked;
}

after_each :
    (P Q : Connection → Type 0) (next : Connection → Option Connection) (o : Option Connection)
    → Ends P o
    → ((c : Connection) → P c → Ends Q (next c))
    → Ends Q (o >>= next)
after_each P Q next none e n = e
after_each P Q next (some c) e n = n c e

Shut-step :
    (f : Connection → Connection) (b : Bool) (c : Connection) → Shut c → Ends Shut (beat f b c)
unfolding step expired completed
Shut-step f true c h = ground (arith, h.closing, h.unshared, h.unlocked)
Shut-step f false c h = ground (arith, h.closing, h.unshared, h.unlocked)

tick_kept :
    (f : Connection → Connection) (s r : ℕ) (c : Connection)
    → Live s r c
    → leb (apart (s + 1) r) 2 ≡ true
    → Ends (Live (s + 1) r) (step (timer true f) c)
unfolding step expired heartbeat
tick_kept f s r c h l =
    ground (arith, h.open', h.unshared, h.unlocked, h.impl, h.socket, h.connection, h.send, h.recv)

tick-Shut :
    (f : Connection → Connection) (s r : ℕ) (c : Connection)
    → IsOthers f
    → Live s r c
    → leb (apart (s + 1) r) 2 ≡ false
    → Ends Shut (step (timer true f) c)
unfolding step expired heartbeat
tick-Shut f s r c o h l =
    let c2 = record c { shared = c.shared + 1; send_package = c.send_package + 1 } in
    ground (
      arith,
      h.open',
      h.unshared,
      h.unlocked,
      h.impl,
      h.socket,
      h.connection,
      h.send,
      h.recv,
      Closed-Shut c2.reads c2.writes (raw_disconnect true f c2),
      raw_disconnect-Closed true f c2 o,
    )

heard_kept :
    (f : Connection → Connection) (s r : ℕ) (c : Connection)
    → Live s r c
    → Ends (Live s (r + 1)) (step (oob_done false f) c)
unfolding step completed oob_recv
heard_kept f s r c h =
    ground (arith, h.open', h.unshared, h.unlocked, h.impl, h.socket, h.connection, h.send, h.recv)

beats-Shut :
    (f : Connection → Connection) (bs : List Bool) (c : Connection)
    → Shut c
    → Ends Shut (beats f bs c)
unfolding beats
beats-Shut f [] c h = h
beats-Shut f (b ∷ bs) c h =
    after_each Shut Shut (beats f bs) (beat f b c) (Shut-step f b c h) (beats-Shut f bs)

Shut-closing : (o : Option Connection) → Ends Shut o → Ends (λ c. c.status.closing ≡ true) o
Shut-closing none e = e
Shut-closing (some c) e = e.closing

Live-beats :
    (f : Connection → Connection) (bs : List Bool) (s r : ℕ) (c : Connection)
    → IsOthers f
    → Live s r c
    → Ends (λ c'. c'.status.closing ≡ not (in_window bs s r)) (beats f bs c)
unfolding beats
Live-beats f [] s r c o h = h.open'
Live-beats f (false ∷ bs) s r c o h =
    after_each (Live s (r + 1)) _ (beats f bs) (beat f false c) (heard_kept f s r c h)
      (λ c1. Live-beats f bs s (r + 1) c1 o)
Live-beats f (true ∷ bs) s r c o h = elim (Bool-cases (leb (apart (s + 1) r) 2)) [
  | inl l ↦
      after_each (Live (s + 1) r)
        (λ c'. c'.status.closing ≡ not (leb (apart (s + 1) r) 2 && in_window bs (s + 1) r))
        (beats f bs) (beat f true c) (tick_kept f s r c h l)
        (λ c1 h1.
          subst
            (λ b.
              Ends (λ c'. c'.status.closing ≡ not (b && in_window bs (s + 1) r)) (beats f bs c1))
            (sym l) (Live-beats f bs (s + 1) r c1 o h1))
  | inr l ↦
      after_each Shut
        (λ c'. c'.status.closing ≡ not (leb (apart (s + 1) r) 2 && in_window bs (s + 1) r))
        (beats f bs) (beat f true c) (tick-Shut f s r c o h l)
        (λ c1 h1.
          subst
            (λ b.
              Ends (λ c'. c'.status.closing ≡ not (b && in_window bs (s + 1) r)) (beats f bs c1))
            (sym l) (Shut-closing (beats f bs c1) (beats-Shut f bs c1 h1)))
]

-- Any sequence of heartbeats that go out and bytes that come in closes an open connection in order, with
-- its protocol half, if and only if at one of the heartbeats the numbers sent and received are more than
-- two apart; no step of it fails, with other threads that keep to `IsOthers`.
pub beats-closing :
    (f : Connection → Connection) (bs : List Bool) (c : Connection)
    → Inv c
    → IsOthers f
    → c.status.closing ≡ false
    → c.impl ≡ true
    → Ends
        (λ c'. c'.status.closing ≡ not (in_window bs c.send_package c.recv_package))
        (beats f bs c)
beats-closing f bs c v o h i =
    let (s, n) = v.live h i in
    Live-beats f bs c.send_package c.recv_package c o (record {
      open' = h;
      unshared = v.unshared;
      unlocked = v.unlocked;
      impl = i;
      socket = s;
      connection = n;
      send = refl;
      recv = refl;
    })

-- A heartbeat that keeps an open connection changes its number and nothing else.
pub expired-kept :
    (f : Connection → Connection) (c : Connection)
    → Inv c
    → c.status.closing ≡ false
    → c.impl ≡ true
    → leb (apart (c.send_package + 1) c.recv_package) 2 ≡ true
    → expired true f c ≡ some (record c { send_package = c.send_package + 1 })
unfolding expired heartbeat
expired-kept f c v o i l = ground (arith, v.unlocked, v.unshared, v.live o i)
