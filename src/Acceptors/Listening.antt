-- ===== src/Acceptors/Listening.antt =====
-- Server.cpp: a server that listens, and `Listen`.
use tt3d.Base.{
  ℕ, ◌+◌, ◌<◌, ◌≡◌, ◌∙◌, refl, ap, arith, true, false, List, [], ◌∷◌, none, some, ◌==◌, Bool-cases,
  inl, inr,
}
use tt3d.Base.Members.{find, erase}
use tt3d.Services.Robin.{start-new, start-running, get_io_service-Got}
use tt3d.Server.{Server}
use tt3d.Server.Channels.{IsOpen}
use tt3d.Timer.{Timers, TimerMaster, register}
use tt3d.Timer
use tt3d.Threads.{new_notifier}
use tt3d.Server.{new_server}
use tt3d.Acceptors.{new_listener, insert_host, Listener, AcceptorTable, find_host, listen}

abbrev pub resources : AcceptorTable → List ℕ
resources [] = []
resources ((host, r) ∷ t) = r ∷ resources t

abbrev pub Distinct : List ℕ → Type 0
Distinct [] = Unit
Distinct (r ∷ rs) = (find r rs ≡ false) × Distinct rs

abbrev pub Below : ℕ → List ℕ → Type 0
Below n [] = Unit
Below n (r ∷ rs) = (r < n) × Below n rs

-- A server that runs, whose acceptors are those of its table.
pub record IsListening (a : Listener) : Type 0 where
  pub open' : IsOpen a.server
  pub service : a.server.io_service_pool.next_io_service < a.server.io_service_pool.services
  pub same : a.owned ≡ resources a.table
  pub distinct : Distinct a.owned
  pub below : Below a.next a.owned

Below-find : (n : ℕ) (rs : List ℕ) → Below n rs → find n rs ≡ false
unfolding find
Below-find n [] b = refl
Below-find n (r ∷ rs) (h, b) = ground (arith, Below-find n rs b)

Below-suc : (n : ℕ) (rs : List ℕ) → Below n rs → Below (n + 1) rs
Below-suc n [] b = tt
Below-suc n (r ∷ rs) (h, b) = (omega arith, Below-suc n rs b)

pub find-erased : (b c : ℕ) (rs : List ℕ) → find b rs ≡ false → find b (erase c rs) ≡ false
unfolding find erase
find-erased b c [] h = refl
find-erased b c (r ∷ rs) h = ground (arith, find-erased b c rs)

pub erased : (r : ℕ) (rs : List ℕ) → Distinct rs → find r (erase r rs) ≡ false
unfolding find erase
erased r [] d = refl
erased r (x ∷ rs) (f, d) = elim (Bool-cases (r == x)) [
  | inl e ↦ ground (arith, e, f)
  | inr e ↦ ground (arith, e, erased r rs d)
]

-- The server changes, but not its pool.
pub with_server :
    {a : Listener} (s : Server)
    → IsListening a
    → IsOpen s
    → s.io_service_pool ≡ a.server.io_service_pool
    → IsListening (record a { server = s })
with_server s l o e = record {
  open' = o;
  service = rw e l.service;
  same = l.same;
  distinct = l.distinct;
  below = l.below;
}

pub listen-IsListening :
    (host : ℕ) (a : Listener)
    → IsListening a
    → find_host host a.table ≡ none
    → (c : Listener) × (listen true host a ≡ some c) × IsListening c
unfolding listen
listen-IsListening host a l f =
    let p = a.server.io_service_pool in
    let (n, q, e, g) = get_io_service-Got p l.service in
    let (n1, q1, e1, g1) = get_io_service-Got q g.small in
    let server = a.server in
    let c = record a {
      server = record server { io_service_pool = q1 };
      timer_master = Timer.start a.timer_master;
      table = (host, a.next) ∷ a.table;
      owned = a.next ∷ a.owned;
      accepting = a.next ∷ a.accepting;
      next = a.next + 1;
    } in
    (
      c,
      ground (arith, start-running p l.open'.running, e, e1, f),
      record {
        open' = record {
          running = g1.running ∙ g.running ∙ l.open'.running;
          count = l.open'.count;
          silent = l.open'.silent;
          unlocked = l.open'.unlocked;
        };
        service = g1.small;
        same = ap (λ rs. a.next ∷ rs) l.same;
        distinct = (Below-find a.next a.owned l.below, l.distinct);
        below = (omega arith, Below-suc a.next a.owned l.below);
      },
    )

-- The first `Listen` of a new server brings it into such a state.
pub first_listen-IsListening :
    (n threads host : ℕ)
    → 0 < n
    → 0 < threads
    → (c : Listener) × (listen true host (new_listener n threads) ≡ some c) × IsListening c
unfolding listen new_listener new_server new_notifier find_host find insert_host
first_listen-IsListening n threads host h w =
    let (p, s, run, small) = start-new n threads h w in
    let (k, q, e, g) = get_io_service-Got p small in
    let (k1, q1, e1, g1) = get_io_service-Got q g.small in
    let a = new_listener n threads in
    let server = a.server in
    (
      record a {
        server = record server { io_service_pool = q1 };
        timer_master = Timer.start a.timer_master;
        table = (host, 0) ∷ [];
        owned = 0 ∷ [];
        accepting = 0 ∷ [];
        next = 1;
      },
      ground (arith, s, e, e1),
      record {
        open' = record {
          running = g1.running ∙ g.running ∙ run;
          count = refl;
          silent = refl;
          unlocked = refl;
        };
        service = g1.small;
        same = refl;
        distinct = (refl, tt);
        below = (omega arith, tt);
      },
    )
