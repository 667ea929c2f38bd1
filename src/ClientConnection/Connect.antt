-- ===== src/ClientConnection/Connect.antt =====
-- ClientConnection.cpp: what `Connect` comes to.
use tt3d.Base.{
  ℕ, ◌+◌, ◌<◌, ◌≡◌, ◌∙◌, refl, arith, Bool, true, false, List, Option, none, some, Bool-cases,
  Option-cases, inl, inr,
}
use tt3d.Services.{IoServicePool, get_io_service, is_running}
use tt3d.Services.Robin.{start-new, start-running, get_io_service-Got}
use tt3d.Services
use tt3d.Timer.{TimerMaster, Timers, register}
use tt3d.Timer.Insert.{appended, internal_add_timer_lem}
use tt3d.Timer
use tt3d.Raw.{new_connection, is_idle, Connection, attach, is_connected}
use tt3d.ClientConnection.{
  new_client_connection, timer_of, ClientConnection, attach_socket, try_each, connect,
}

closing-attach_socket :
    (t : Timers (Option Connection)) (s : ClientConnection)
    → s.connection.status.closing ≡ true
    → attach_socket t s ≡ none
unfolding attach_socket attach
closing-attach_socket t s h = ground (arith, h)

-- Once a connection has been closed, by either side, a `Connect` that reaches its server ends the process, with whatever
-- pool and timers: the status still says that it is closing, so it is not connected, and then either its old protocol half
-- is still there, or the new one asserts that it is not closing.
pub connect-closing :
    (t : Timers (Option Connection)) (endpoints : List Bool) (s : ClientConnection)
    → s.connection.status.closing ≡ true
    → try_each endpoints ≡ true
    → connect t (some endpoints) s ≡ none
unfolding connect is_connected
connect-closing t endpoints s h e = elim (Option-cases (Services.start s.io_service_pool)) [
  | inl n ↦ ground (arith, h, n)
  | inr (p, n) ↦ elim (Option-cases (get_io_service p)) [
    | inl n1 ↦ ground (arith, h, n, n1)
    | inr ((k, p1), n1) ↦ elim (Option-cases (get_io_service p1)) [
      | inl n2 ↦ ground (arith, h, n, n1, n2)
      | inr ((k', p2), n2) ↦
          let s1 = record s { io_service_pool = p2; timer_master = Timer.start s.timer_master } in
          ground (arith, h, e, n, n1, n2, closing-attach_socket t s1 h)
    ]
  ]
]

-- A client that is not connected, and never was: its pool starts or runs, and its connection has no protocol half.
pub record IsReady (s : ClientConnection) : Type 0 where
  pub started :
      (q : IoServicePool) × (Services.start s.io_service_pool ≡ some q)
      × (is_running q ≡ true)
      × (q.next_io_service < q.services)
  pub idle : is_idle s.connection.status ≡ true
  pub open' : s.connection.status.closing ≡ false
  pub unlocked : s.connection.exclusive ≡ false
  pub no_impl : s.connection.impl ≡ false

pub new_client_connection-IsReady : IsReady new_client_connection
unfolding new_client_connection new_connection
new_client_connection-IsReady = record {
  started = start-new 1 1 (omega arith) (omega arith);
  idle = refl;
  open' = refl;
  unlocked = refl;
  no_impl = refl;
}

-- What `Connect` leaves: a connection, whose timer is to expire 30 ticks after the clock's; or a client that
-- can try again.
pub record Connected (s s' : ClientConnection) : Type 0 where
  pub connected : is_connected s'.connection ≡ true
  pub socket : s'.connection.socket ≡ true
  pub reads : s'.connection.reads ≡ s.connection.reads + 1
  pub attached : attach s.connection ≡ some s'.connection
  pub timer :
      s'.timer_master
      ≡ appended (Timer.start s.timer_master) 0 (30 + (Timer.start s.timer_master).timer_jiffies)

abbrev pub Ends : Bool → ClientConnection → ClientConnection → Type 0
Ends true s s' = Connected s s'
Ends false s s' = IsReady s'

abbrev Opened : ℕ → Option Connection → Type 0
Opened reads none = ⊥
Opened reads (some c) = (is_connected c ≡ true) × (c.socket ≡ true) × (c.reads ≡ reads + 1)

opened :
    (reads : ℕ) (o : Option Connection)
    → Opened reads o
    → (c : Connection) × (o ≡ some c) × Opened reads (some c)
opened reads none h = absurd h
opened reads (some c) h = (c, refl, h)

attach-Opened :
    (c : Connection) → c.status.closing ≡ false → c.exclusive ≡ false → Opened c.reads (attach c)
unfolding attach is_connected
attach-Opened c o x = ground arith

idle-is_connected : (c : Connection) → is_idle c.status ≡ true → is_connected c ≡ false
unfolding is_connected
idle-is_connected c h = ground arith

module _ (sent : Bool) (meanwhile : Connection → Connection) where
  attach_socket-Connected :
      (s : ClientConnection)
      → s.connection.status.closing ≡ false
      → s.connection.exclusive ≡ false
      → s.connection.impl ≡ false
      → (c : Connection) × (attach_socket (timer_of sent meanwhile) s
          ≡ some (record s {
            connection = c;
            timer_master = appended s.timer_master 0 (30 + s.timer_master.timer_jiffies);
          }))
        × (is_connected c ≡ true)
        × (c.socket ≡ true)
        × (c.reads ≡ s.connection.reads + 1)
        × (attach s.connection ≡ some c)
  unfolding attach_socket register
  attach_socket-Connected s o x i =
      let (c, e, h) =
        opened s.connection.reads (attach s.connection) (attach-Opened s.connection o x) in
      let m = s.timer_master in
      let time = 30 + m.timer_jiffies in
      (
        c,
        ground (arith, i, e, internal_add_timer_lem m 0 time (omega arith) (omega arith)),
        h.0,
        h.1,
        h.2,
        e,
      )

  -- For a client that is ready, `Connect` returns, and tells whether one of the endpoints accepted: then
  -- the connection is connected, reads, and its timer is registered; otherwise the client is ready for another call.
  pub connect-Ends :
      (endpoints : List Bool) (s : ClientConnection)
      → IsReady s
      → (s' : ClientConnection) × (connect (timer_of sent meanwhile) (some endpoints) s
          ≡ some (try_each endpoints, s'))
        × Ends (try_each endpoints) s s'
  unfolding connect
  connect-Ends endpoints s r =
      let (q, e, run, small) = r.started in
      let (n, q1, e1, g1) = get_io_service-Got q small in
      let (n2, q2, e2, g2) = get_io_service-Got q1 g1.small in
      let s1 = record s { io_service_pool = q2; timer_master = Timer.start s.timer_master } in
      elim (Bool-cases (try_each endpoints)) [
        | inl y ↦
            let (c, a, connected, socket, reads, attached) =
              attach_socket-Connected s1 r.open' r.unlocked r.no_impl in
            rw y (
              record s1 {
                connection = c;
                timer_master = appended s1.timer_master 0 (30 + s1.timer_master.timer_jiffies);
              },
              ground (arith, idle-is_connected s.connection r.idle, e, e1, e2, y, a),
              record {
                connected = connected;
                socket = socket;
                reads = reads;
                attached = attached;
                timer = refl;
              },
            )
        | inr y ↦ rw y (
          s1,
          ground (arith, idle-is_connected s.connection r.idle, e, e1, e2, y),
          record {
            started = (
              q2,
              start-running q2 (g2.running ∙ g1.running ∙ run),
              g2.running ∙ g1.running ∙ run,
              g2.small,
            );
            idle = r.idle;
            open' = r.open';
            unlocked = r.unlocked;
            no_impl = r.no_impl;
          },
        )
      ]
