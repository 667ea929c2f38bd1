-- ===== src/Acceptors/Release.antt =====
-- Server.cpp: every acceptor is released once, if no accept ends in an error.
use tt3d.Base.{
  ℕ, ◌≡◌, ◌∙◌, refl, ap, arith, Bool, true, false, [], ◌∷◌, ◌++◌, none, some, ◌==◌, Bool-cases, inl,
  inr,
}
use tt3d.Base.Members.{find, erase}
use tt3d.Services.{is_running}
use tt3d.Server.Channels.{stop_open}
use tt3d.Timer.{Timers}
use tt3d.Timer
use tt3d.Acceptors.{
  Listener, AcceptorTable, find_host, release, release_acceptor, accept_handler, release_each, stop,
}
use tt3d.Acceptors.Listening.{resources, IsListening, find-erased, erased}
use tt3d.Acceptors.Events.{Runs, runs-IsListening}

-- All are released, in the table's order.
release_each-all :
    (t : AcceptorTable) (a : Listener)
    → a.owned ≡ resources t
    → (b : Listener) × (release_each t a ≡ some b) × (b.owned ≡ []) × (b.server ≡ a.server)
unfolding release_each release find erase
release_each-all [] a e = (a, refl, e, refl)
release_each-all ((host, r) ∷ t) a e =
    let (b, d, o, p) = release_each-all t (record a { owned = resources t }) refl in
    (b, ground (arith, e, d), o, p)

-- However a listening server listens on further hosts, accepts new connections, finds sockets that are not open and
-- sees connections close, it can then be stopped, and every acceptor has been released, once: none is left, neither in the table nor
-- outside of it, and every channel that was left has been disconnected, and none is in the table.
pub runs-stop :
    {W : Type 0} (t : Timers W) (a b : Listener)
    → IsListening a
    → Runs t a b
    → (c : Listener) × (stop b ≡ some c)
      × (c.owned ≡ [])
      × (c.table ≡ [])
      × (c.server.channels ≡ [])
      × (c.server.disconnected ≡ b.server.disconnected ++ b.server.channels)
      × (is_running c.server.io_service_pool ≡ false)
unfolding stop
runs-stop t a b l r =
    let o = runs-IsListening t a b l r in
    let (s, e, ch, dis, run, n) = stop_open b.server o.open' in
    let (d, f, w, sv) = release_each-all b.table (record b { server = s }) o.same in
    (
      record d { table = []; timer_master = Timer.stop d.timer_master },
      ground (arith, o.open'.running, e, f),
      w,
      refl,
      ap (λ t. t.channels) sv ∙ ch,
      ap (λ t. t.disconnected) sv ∙ dis,
      ap (λ t. is_running t.io_service_pool) sv ∙ run,
    )

-- Where one is gone already, it is released again.
release_each-twice :
    (t : AcceptorTable) (a : Listener) (host r : ℕ)
    → find_host host t ≡ some r
    → find r a.owned ≡ false
    → release_each t a ≡ none
unfolding release_each release find_host
release_each-twice [] a host r f n = ground (arith, f)
release_each-twice ((key, x) ∷ t) a host r f n = elim (Bool-cases (host == key)) [
  | inl e ↦ ground (arith, e, f, n)
  | inr e ↦ elim (Bool-cases (find x a.owned)) [
    | inr m ↦ ground (arith, m)
    | inl m ↦ ground (
      arith,
      m,
      release_each-twice t (record a { owned = erase x a.owned }) host r (ground (arith, e, f))
          (find-erased r x a.owned n),
    )
  ]
]

host-owned :
    (host r : ℕ) (t : AcceptorTable) → find_host host t ≡ some r → find r (resources t) ≡ true
unfolding find_host find
host-owned host r [] f = ground (arith, f)
host-owned host r ((key, x) ∷ t) f = ground (arith, f, host-owned host r t)

-- After an accept of a listening server has ended in an error, and so released the acceptor of its host, stopping
-- the server releases that acceptor a second time, since it is still in the table.
pub accept_error-stop :
    {W : Type 0} (t : Timers W) (w : W) (host r : ℕ) (a : Listener) (is_open : Bool)
    → IsListening a
    → find_host host a.table ≡ some r
    → (b : Listener) × (accept_handler t w true is_open none true host r a ≡ some b)
      × (stop b ≡ none)
unfolding accept_handler release_acceptor release stop
accept_error-stop t w host r a is_open l f =
    let there : find r a.owned ≡ true = ap (λ rs. find r rs) l.same ∙ host-owned host r a.table f in
    let b = record a { accepting = erase r a.accepting; owned = erase r a.owned } in
    let (s, e, ch, dis, run, n) = stop_open a.server l.open' in
    let twice =
      release_each-twice a.table (record b { server = s }) host r f (erased r a.owned l.distinct) in
    (b, ground (arith, f, there), ground (arith, l.open'.running, e, twice))
