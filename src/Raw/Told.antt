-- ===== src/Raw/Told.antt =====
-- RawConnection.cpp and Connection.hpp: a silent peer, and who hears of it.
use tt3d.Base.{
  ℕ, ◌+◌, ◌<◌, ◌≤◌, ◌≡◌, subst, arith, true, false, [], ◌++◌, some, Bool-cases, inl, inr,
}
use tt3d.Raw.{Connection, Event, step, told}
use tt3d.Raw.Handlers.{Ends, Inv, IsEvent}
use tt3d.Raw.Heartbeat.{ticks, heard, IsQuiet}
use tt3d.Raw.Silence.{History, History-Ran, silent-closing}
use tt3d.Raw.Telling.{Tells, IsTelling, step-Tells, closing-kept}

-- A history in which no listener is added and `Connection::Disconnect` is not called.
pub data Course (c : Connection) : ℕ → ℕ → Connection → Type 0 where
  setting_out : Course c 0 0 c
  going :
      {t h : ℕ} {c1 c2 : Connection} (e : Event)
      → Course c t h c1
      → IsEvent e c1
      → IsQuiet e
      → IsTelling e
      → step e c1 ≡ some c2
      → Course c (t + ticks e) (h + heard e) c2

Course-History : {c : Connection} {t h : ℕ} {c' : Connection} → Course c t h c' → History c t h c'
Course-History setting_out = History.start
Course-History (going e r p q t s) = History.event e (Course-History r) p q s

on_from : (c c1 c2 : Connection) → c1.status.closing ≡ false → Tells c c1 → Tells c1 c2 → Tells c c2
on_from c c1 c2 o a b =
    ground (arith, o, a.notified, a.listeners, a.held, b.notified, b.listeners, b.held)

stays :
    (c c1 c2 : Connection)
    → c1.status.closing ≡ true
    → Tells c c1
    → (c2.listeners ≡ c1.listeners)
      × (c2.notified ≡ c1.notified)
      × (c2.held ≡ c1.held)
      × (c2.status.closing ≡ true)
    → Tells c c2
stays c c1 c2 o a (l, n, k, s) = ground (arith, o, a.notified, a.listeners, a.held, l, n, k, s)

Course-Tells :
    {c : Connection} {t h : ℕ} {c' : Connection}
    → Inv c
    → c.impl ≡ true
    → c.status.closing ≡ false
    → Course c t h c'
    → Tells c c'
Course-Tells {c} v i o setting_out = ground (arith, o)
Course-Tells {c} v i o (going {c1 = c1} {c2 = c2} e r p q t s) =
    let before = History-Ran v i (Course-History r) in
    let a = Course-Tells v i o r in
    elim (Bool-cases c1.status.closing) [
      | inl d ↦ stays c c1 c2 d a (
          subst
            (Ends (λ c'.
              (c'.listeners ≡ c1.listeners)
              × (c'.notified ≡ c1.notified)
              × (c'.held ≡ c1.held)
              × (c'.status.closing ≡ true)))
            s (closing-kept c1 before.kept d e t))
      | inr d ↦ on_from c c1 c2 d a (subst (Ends (Tells c1)) s (step-Tells c1 before.kept d e p t))
    ]

-- A peer that falls silent is dropped, and whoever listens for that hears of it. Of an open connection in order with its
-- protocol half that has sent at most two heartbeats more than it received: once the heartbeats since, `t`, bring the
-- number sent more than two above the number received, `h` of them since, it is closed, and each of its listeners that has
-- not expired has been called exactly once, in the order of their registration. In between, events of the connection
-- happen in any order, but no listener is added or expires and `Connection::Disconnect` is not called; other threads
-- keep to `IsOthers`, and if they close the connection they call its listeners too (`IsCaller`); and `Decode`
-- calls none.
pub silent-Tells :
    (t h : ℕ) (c c' : Connection)
    → Inv c
    → c.impl ≡ true
    → c.status.closing ≡ false
    → c.send_package ≤ c.recv_package + 2
    → Course c t h c'
    → c.recv_package + h + 2 < c.send_package + t
    → (c'.status.closing ≡ true)
      × (c'.notified ≡ c.notified ++ told c.held c.listeners)
      × (c'.listeners ≡ [])
silent-Tells t h c c' v i o w r late =
    let shut = silent-closing t h c c' v i w (Course-History r) late in
    let a = Course-Tells v i o r in
    (shut, ground (arith, a.notified, shut), ground (arith, a.listeners, shut))
