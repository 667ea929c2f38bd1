-- ===== src/Rpc/Progress.antt =====
-- A client's life: every event that may happen ends, and keeps the client in order.
use tt3d.Base.{
  ℕ, ◌+◌, ◌<◌, ◌≡◌, ◌∙◌, ap, sym, subst, refl, arith, Bool, true, false, ◌||◌, [], none, some,
  Bool-cases, Option-cases, inl, inr,
}
use tt3d.Wire.{Bytes, Codec}
use tt3d.Raw.{Connection, Event, step, read_done}
use tt3d.Raw.Handlers.{Ends, Inv, IsEvent, IsOthers, step-Inv}
use tt3d.Raw.Like.{Like-refl}
use tt3d.Raw.Closing.{Unmoved, step-Unmoved}
use tt3d.Raw.Heartbeat.{ticks, heard, IsQuiet, Kept, step-Kept}
use tt3d.Raw.Gone.{Gone, IsThorough, step-Gone, read-Gone, Unmoved-Gone}
use tt3d.Methods.{Service}
use tt3d.Rpc.{Client}
use tt3d.Rpc.Times.{weight}
use tt3d.Rpc.Once.{total, call_method-total}
use tt3d.Rpc.Calling.{Called, call_method-Called}
use tt3d.Rpc.Life.{
  Living, ClientEvent, calls, reads, happens, with_connection, settle, client_step, IsClientEvent,
  client_ticks, client_heard, closures_given,
}
use tt3d.Rpc.Hearing.{Heard, decode_client-Heard, settle-total, settle-empty, settle-connection}

-- In order, with its half gone if it is closed, and without the half no call waits.
pub record IsLiving (l : Living) : Type 0 where
  pub kept : Inv l.client.connection
  pub gone : Gone l.client.connection
  pub empty : l.client.connection.impl ≡ false → l.client.table ≡ []

-- What the connection has after an event.
pub record After (t h : ℕ) (c c' : Connection) : Type 0 where
  pub kept : Inv c'
  pub gone : Gone c'
  pub shut : c.status.closing ≡ true → c'.status.closing ≡ true
  pub counted : c.status.closing ≡ false → c.impl ≡ true → Kept t h c c'

module _ (c : Connection) (v : Inv c) (g : Gone c) where
  event-After :
      (e : Event)
      → IsEvent e c
      → IsQuiet e
      → Ends Gone (step e c)
      → (c' : Connection) × (step e c ≡ some c') × After (ticks e) (heard e) c c'
  event-After e h q n = elim (Option-cases (step e c)) [
    | inl f ↦ absurd (subst (Ends Inv) f (step-Inv e c v h))
    | inr (c', f) ↦ (
      c',
      f,
      record {
        kept = subst (Ends Inv) f (step-Inv e c v h);
        gone = subst (Ends Gone) f n;
        shut =
            λ o. ap (λ s. s.closing) (subst (Ends (Unmoved c)) f (step-Unmoved e c v o)).status ∙ o;
        counted = λ o i. subst (Ends (Kept (ticks e) (heard e) c)) f (step-Kept e c v h q i o);
      },
    )
  ]

-- What a client is after an event.
pub record Stepped (t h : ℕ) (given : ℕ → ℕ) (l l' : Living) : Type 0 where
  pub living : IsLiving l'
  pub totals : (m : ℕ) → total m l'.client ≡ total m l.client + given m
  pub after : After t h l.client.connection l'.client.connection

abbrev none_given : ℕ → ℕ
none_given m = 0

Called-Stepped :
    (given : ℕ → ℕ) (l : Living) (s : Client)
    → IsLiving l
    → Called l.client s
    → ((m : ℕ) → total m s ≡ total m l.client + given m)
    → Stepped 0 0 given l (record l { client = s })
Called-Stepped given l s v c t =
    let k = c.same.like in
    let gone : Gone s.connection = λ h. k.impl ∙ v.gone (sym k.closing ∙ h) in
    record {
      living = record {
        kept = c.kept;
        gone = gone;
        empty = λ i. c.waits (sym k.impl ∙ i) ∙ v.empty (sym k.impl ∙ i);
      };
      totals = t;
      after = record {
        kept = c.kept;
        gone = gone;
        shut = λ h. k.closing ∙ h;
        counted = λ o i n. record {
          impl = k.impl ∙ i;
          send = omega (arith, c.same.send);
          recv = omega (arith, c.same.recv);
          window = inl refl;
        };
      };
    }

module _ (k : Codec) (meanwhile : Connection → Connection) (service : Service)
    (parses : ℕ → Bytes → Bool) where
  settled-Stepped :
      (t h : ℕ) (l l1 : Living) (c1 : Connection)
      → IsLiving l
      → Heard l.client l1.client
      → After t h l.client.connection c1
      → Stepped t h none_given l
          (settle k meanwhile service parses l.client.connection.impl (with_connection c1 l1))
  settled-Stepped t h l l1 c1 v heard' a =
      let had = l.client.connection.impl in
      let l2 = with_connection c1 l1 in
      let same = settle-connection k meanwhile service parses had l2 in
      record {
        living = record {
          kept = subst Inv (sym same) a.kept;
          gone = subst Gone (sym same) a.gone;
          empty = λ i.
              settle-empty k meanwhile service parses had l2 (λ n. heard'.empty (v.empty n))
                (sym (ap (λ c. c.impl) same) ∙ i);
        };
        totals =
            λ m. omega (arith, settle-total k meanwhile service parses m had l2, heard'.totals m);
        after = subst (After t h l.client.connection) (sym same) a;
      }

  -- The read itself, as an event of the connection.
  read-After :
      (error ok : Bool) (f : Connection → Connection) (c : Connection)
      → Inv c
      → Gone c
      → 0 < c.reads
      → IsOthers f
      → IsThorough f
      → (c' : Connection) × (step (read_done error (λ d. (ok, d)) f) c ≡ some c') × After 0 0 c c'
  read-After error ok f c v g p o t =
      let e = read_done error (λ d. (ok, d)) f in
      event-After c v g e (p, (λ d. Like-refl d), o) (λ d. (refl, refl))
        (elim (Bool-cases c.status.closing) [
          | inl h ↦ Unmoved-Gone c (step e c) g (step-Unmoved e c v h)
          | inr h ↦ read-Gone error ok f c v p o t h
        ])

  none-Heard : (l : Living) → Heard l.client l.client
  none-Heard l = record { connection = refl; empty = λ e. e; totals = λ m. refl }

  -- In a client in order every event that may happen ends without a fault, and leaves it in order: no call waits
  -- once the connection's protocol half is gone. The closures that were run and those still to be run are those before
  -- and those that the event gives.
  pub client_step-Stepped :
      (e : ClientEvent) (l : Living)
      → IsLiving l
      → IsClientEvent k meanwhile service parses e l
      → (l' : Living) × (client_step k meanwhile service parses e l ≡ some l')
        × Stepped (client_ticks e) (client_heard e) (λ m. closures_given m e) l l'
  unfolding client_step
  client_step-Stepped (calls identify hash content call) l v (small, bound) =
      let (s, e, c) = call_method-Called k identify hash content call l.client v.kept small bound in
      (
        record l { client = s },
        ground (arith, e),
        Called-Stepped (λ m. weight m call) l s v c
            (λ m.
              call_method-total k meanwhile service none parses m identify hash content call
                l.client s e),
      )
  client_step-Stepped (reads error bytes f) l v (p, o, t, a) =
      let c = l.client.connection in
      elim (Bool-cases (c.status.closing || error)) [
        | inl h ↦
            let (c1, e, r) = read-After error true f c v.kept v.gone p o t in
            (
              settle k meanwhile service parses c.impl (with_connection c1 l),
              ground (arith, h, e),
              settled-Stepped 0 0 l l c1 v (none-Heard l) r,
            )
        | inr h ↦
            let (d, de, heard') = decode_client-Heard k meanwhile service parses bytes l (a h) in
            let (c1, e, r) = read-After error d.0 f c v.kept v.gone p o t in
            (
              settle k meanwhile service parses c.impl (with_connection c1 d.1),
              ground (arith, h, de, e),
              settled-Stepped 0 0 l d.1 c1 v heard' r,
            )
      ]
  client_step-Stepped (happens e) l v (p, q, n) =
      let c = l.client.connection in
      let (c1, f, a) = event-After c v.kept v.gone e p q (step-Gone e c v.kept p n v.gone) in
      (
        settle k meanwhile service parses c.impl (with_connection c1 l),
        ground (arith, f),
        settled-Stepped (ticks e) (heard e) l l c1 v (none-Heard l) a,
      )
