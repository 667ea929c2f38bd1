-- ===== src/Raw/Silence.antt =====
-- RawConnection.cpp and Connection.hpp: the heartbeats over any history of a connection, and when they close it.
use tt3d.Base.{
  ℕ, ◌+◌, ◌<◌, ◌≤◌, ◌≡◌, ◌⊎◌, ◌∙◌, ap, refl, subst, inl, inr, arith, true, Option, none, some,
  Bool-cases,
}
use tt3d.Raw.{
  Connection, Event, listen, step, read_done, write_done, oob_done, timer, push, schedule, close,
}
use tt3d.Raw.Handlers.{Ends, Inv, IsEvent, step-Inv}
use tt3d.Raw.Closing.{Unmoved, step-Unmoved}
use tt3d.Raw.Heartbeat.{ticks, heard, IsQuiet, Counted, Kept, step-Kept}

-- An event of a history, for a connection in order.
pub data History (c : Connection) : ℕ → ℕ → Connection → Type 0 where
  start : History c 0 0 c
  event :
      {t h : ℕ} {c1 c2 : Connection} (e : Event)
      → History c t h c1
      → IsEvent e c1
      → IsQuiet e
      → step e c1 ≡ some c2
      → History c (t + ticks e) (h + heard e) c2

-- A history leaves the connection in order, and closing or counted.
pub record Ran (t h : ℕ) (c c' : Connection) : Type 0 where
  pub kept : Inv c'
  pub counted : Kept t h c c'

one_more :
    (t h dt dh : ℕ) (c c1 : Connection) (o : Option Connection)
    → Counted t h c c1
    → (dt ≡ 0) ⊎ (h + dh ≡ h)
    → Ends (Kept dt dh c1) o
    → Ends (Kept (t + dt) (h + dh) c) o
one_more t h dt dh c c1 none r s e = e
one_more t h dt dh c c1 (some c2) r s e = λ o. ground (arith, r.impl, r.send, r.recv, r.window, e o)

Unmoved-closing :
    (c : Connection) (o : Option Connection)
    → c.status.closing ≡ true
    → Ends (Unmoved c) o
    → Ends (λ c'. c'.status.closing ≡ true) o
Unmoved-closing c none h e = e
Unmoved-closing c (some c') h e = ap (λ s. s.closing) e.status ∙ h

closing-Kept :
    (t h : ℕ) (c : Connection) (o : Option Connection)
    → Ends (λ c'. c'.status.closing ≡ true) o
    → Ends (Kept t h c) o
closing-Kept t h c none e = e
closing-Kept t h c (some c') e = λ o. ground (arith, e, o)

apart_counts : (e : Event) (h : ℕ) → (ticks e ≡ 0) ⊎ (h + heard e ≡ h)
apart_counts (read_done error decode f) h = inl refl
apart_counts (write_done error n f) h = inl refl
apart_counts (oob_done error f) h = inl refl
apart_counts (timer sent f) h = inr (omega arith)
apart_counts (push item) h = inl refl
apart_counts schedule h = inl refl
apart_counts (close f) h = inl refl
apart_counts (listen l) h = inl refl

pub History-Ran :
    {c : Connection} {t h : ℕ} {c' : Connection}
    → Inv c
    → c.impl ≡ true
    → History c t h c'
    → Ran t h c c'
History-Ran v i start = record {
  kept = v;
  counted = λ o. record { impl = i; send = omega arith; recv = omega arith; window = inl refl };
}
History-Ran {c} v i (event {t = t1} {h = h1} {c1 = c1} {c2 = c2} e r p q s) =
    let before = History-Ran v i r in
    record {
      kept = subst (Ends Inv) s (step-Inv e c1 before.kept p);
      counted =
          subst (Ends (Kept (t1 + ticks e) (h1 + heard e) c)) s
            (elim (Bool-cases c1.status.closing) [
              | inl o ↦
                  closing-Kept (t1 + ticks e) (h1 + heard e) c (step e c1)
                    (Unmoved-closing c1 (step e c1) o (step-Unmoved e c1 before.kept o))
              | inr o ↦
                  one_more t1 h1 (ticks e) (heard e) c c1 (step e c1) (before.counted o)
                    (apart_counts e h1) (step-Kept e c1 before.kept p q (before.counted o).impl o)
            ]);
    }

-- A peer that falls silent is dropped: whatever else happens to a connection in order that has its protocol half and has
-- sent at most two heartbeats more than it received, once the heartbeats since, `t`, bring the number sent more than
-- two above the number received, `h` of them since, it is closing. The events are those that may happen,
-- with `Decode` leaving the two counters alone.
pub silent-closing :
    (t h : ℕ) (c c' : Connection)
    → Inv c
    → c.impl ≡ true
    → c.send_package ≤ c.recv_package + 2
    → History c t h c'
    → c.recv_package + h + 2 < c.send_package + t
    → c'.status.closing ≡ true
silent-closing t h c c' v i w r late = elim (Bool-cases c'.status.closing) [
  | inl o ↦ o
  | inr o ↦
      let n = (History-Ran v i r).counted o in absurd (ground (arith, n.send, n.recv, n.window))
]
