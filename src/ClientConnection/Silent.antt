-- ===== src/ClientConnection/Silent.antt =====
-- ClientConnection.cpp with TimerMaster.cpp and RawConnection.cpp: what the client's own timer does about a silent server.
use tt3d.Base.{
  ℕ, ◌+◌, ◌<◌, ◌≤◌, ◌≡◌, ◌∙◌, refl, ap, sym, subst, arith, Bool, true, false, List, Option, none,
  some, ◌>>=◌,
}
use tt3d.Timer.{TimerMaster, Timers, new_timer_master, update}
use tt3d.Timer
use tt3d.Timer.Insert.{appended}
use tt3d.Timer.Alone.{IsAlone, first-IsAlone, start-clock, called_thrice}
use tt3d.Raw.{Connection, attach, new_connection, is_connected, expired}
use tt3d.Raw.Handlers.{Ends, Inv, IsOthers}
use tt3d.Raw.Closing.{expired_window}
use tt3d.Raw.Beats.{expired-kept}
use tt3d.ClientConnection.{ClientConnection, new_client_connection, timer_of, connect, try_each}
use tt3d.ClientConnection.Connect.{Connected, connect-Ends, new_client_connection-IsReady}
use tt3d.ClientConnection.Connect

-- A connection that has just been attached, after `n` heartbeats.
record IsFresh (n : ℕ) (c : Connection) : Type 0 where
  kept : Inv c
  open' : c.status.closing ≡ false
  impl : c.impl ≡ true
  reading : c.status.reading ≡ true
  send : c.send_package ≡ n
  recv : c.recv_package ≡ 0

attached-IsFresh : Ends (IsFresh 0) (attach new_connection)
unfolding attach new_connection
attached-IsFresh = record {
  kept = ground arith;
  open' = refl;
  impl = refl;
  reading = refl;
  send = refl;
  recv = refl;
}

attach-IsFresh : (c : Connection) → attach new_connection ≡ some c → IsFresh 0 c
attach-IsFresh c e = subst (Ends (IsFresh 0)) e attached-IsFresh

IsFresh-is_connected : (n : ℕ) (c : Connection) → IsFresh n c → is_connected c ≡ true
unfolding is_connected
IsFresh-is_connected n c f = ground (arith, f.open', f.reading)

beaten : Connection → Connection
beaten c = record c { send_package = c.send_package + 1 }

beaten-IsFresh : (n : ℕ) (c : Connection) → IsFresh n c → IsFresh (n + 1) (beaten c)
unfolding beaten
beaten-IsFresh n c f =
    let v = f.kept in
    record {
      kept = record {
        unshared = v.unshared;
        unlocked = v.unlocked;
        one_read = v.one_read;
        one_write = v.one_write;
        attached = v.attached;
        live = v.live;
        reading = v.reading;
        writing = v.writing;
      };
      open' = f.open';
      impl = f.impl;
      reading = f.reading;
      send = omega (arith, f.send);
      recv = f.recv;
    }

expired-beaten :
    (g : Connection → Connection) (n : ℕ) (c : Connection)
    → IsFresh n c
    → n < 2
    → expired true g c ≡ some (beaten c)
unfolding beaten
expired-beaten g n c f h = expired-kept g c f.kept f.open' f.impl (ground (arith, f.send, f.recv))

closes_at_last :
    (o : Option Connection)
    → Ends (λ c. c.status.closing ≡ true) o
    → (c : Connection) × (o ≡ some c) × (c.status.closing ≡ true)
closes_at_last none e = absurd e
closes_at_last (some c) e = (c, refl, e)

expired-last :
    (g : Connection → Connection) (c : Connection)
    → IsOthers g
    → IsFresh 2 c
    → (c' : Connection) × (expired true g c ≡ some c') × (c'.status.closing ≡ true)
expired-last g c o f = closes_at_last (expired true g c) (
    subst (λ b. Ends (λ c'. c'.status.closing ≡ b) (expired true g c))
      (ground (arith, f.send, f.recv)) (expired_window true g c f.kept o f.open' f.impl))

module _ (g : Connection → Connection) (o : IsOthers g) where
  t : Timers (Option Connection)
  t = timer_of true g

  three_beats :
      (m : TimerMaster) (c : Connection)
      → IsFresh 0 c
      → IsAlone 0 31 m
      → m.timer_jiffies ≤ 31
      → (m' : TimerMaster) × (c' : Connection) × (update t 91 m (some c) ≡ some (m', some c'))
        × (c'.status.closing ≡ true)
  unfolding t
  three_beats m c f a h =
      let f1 = beaten-IsFresh 0 c f in
      let f2 = beaten-IsFresh 1 (beaten c) f1 in
      let e1 = expired-beaten g 0 c f (omega arith) in
      let e2 = ap (λ w. w >>= expired true g) e1 ∙ expired-beaten g 1 (beaten c) f1 (omega arith) in
      let (c', e, shut) = expired-last g (beaten (beaten c)) o f2 in
      let e3 = ap (λ w. w >>= expired true g) e2 ∙ e in
      let (m', r) =
        called_thrice t (λ v n p. (omega arith, omega arith)) 0 31 30 m (some c) a h (omega arith)
          (λ v. refl) refl
          (
            ap (λ w. t.alive w 0) e1,
            ap (λ w. t.period w 0) e1 ∙ IsFresh-is_connected 1 (beaten c) f1,
          )
          (
            ap (λ w. t.alive w 0) e2,
            ap (λ w. t.period w 0) e2 ∙ IsFresh-is_connected 2 (beaten (beaten c)) f2,
          ) in
      (m', c', r ∙ ap (λ w. some (m', w)) e3, shut)

  -- The timer that `Connect` registers drops a server that falls silent. Where an endpoint accepts, `Connect` of a new
  -- client returns true; if then every heartbeat goes out, nothing comes from the server, and nothing happens to the
  -- connection but the calls of `Expired` (with other threads that keep to `IsOthers`), the timer master's `Update( 91 )`
  -- ends and the connection is closing.
  pub connect-update :
      (endpoints : List Bool)
      → try_each endpoints ≡ true
      → (s : ClientConnection) × (connect (timer_of true g) (some endpoints) new_client_connection
          ≡ some (true, s))
        × ((m' : TimerMaster) × (c' : Connection) × (update
                (timer_of true g)
                91
                s.timer_master
                (some s.connection)
              ≡ some (m', some c'))
            × (c'.status.closing ≡ true))
  unfolding t new_client_connection
  connect-update endpoints y =
      let (s, e, ends) =
        connect-Ends true g endpoints new_client_connection new_client_connection-IsReady in
      let c = subst (λ b. Connect.Ends b new_client_connection s) y ends in
      let wheel : s.timer_master ≡ appended (Timer.start new_timer_master) 0 31 =
        c.timer ∙ ap (λ j. appended (Timer.start new_timer_master) 0 (30 + j)) start-clock in
      (
        s,
        e ∙ ap (λ b. some (b, s)) y,
        three_beats s.timer_master s.connection (attach-IsFresh s.connection c.attached)
            (subst (IsAlone 0 31) (sym wheel) (first-IsAlone 0 31 (omega arith) (omega arith)))
            (subst (λ m. m.timer_jiffies ≤ 31) (sym wheel) (omega (arith, start-clock))),
      )
