-- ===== src/Rpc/Ended.antt =====
-- A client's life: the closure of every call is run once, and by when.
mod Tests
use tt3d.Base.{
  ℕ, ◌+◌, ◌<◌, ◌≤◌, ◌≡◌, ◌⊎◌, ◌∙◌, ap, sym, subst, refl, arith, Bool, true, false, List, [], ◌∷◌,
  Option, none, some, ◌>>=◌, Bool-cases, Option-cases, inl, inr,
}
use tt3d.Wire.{Bytes, Codec}
use tt3d.Raw.{Connection}
use tt3d.Raw.Handlers.{Inv}
use tt3d.Raw.Heartbeat.{Counted, Kept}
use tt3d.Raw.Gone.{Gone}
use tt3d.Methods.{Service}
use tt3d.Rpc.{Client, release_response_table}
use tt3d.Rpc.Times.{times, waiting, abort_all-times}
use tt3d.Rpc.Once.{total, release-total}
use tt3d.Rpc.Life.{
  Living, ClientEvent, client_step, IsClientEvent, client_ticks, client_heard, closures_given,
}
use tt3d.Rpc.Progress.{IsLiving, After, Stepped, client_step-Stepped}

-- Over a list of events.
abbrev pub all_ticks : List ClientEvent → ℕ
all_ticks [] = 0
all_ticks (e ∷ es) = client_ticks e + all_ticks es

abbrev pub all_heard : List ClientEvent → ℕ
all_heard [] = 0
all_heard (e ∷ es) = client_heard e + all_heard es

abbrev pub all_given : ℕ → List ClientEvent → ℕ
all_given m [] = 0
all_given m (e ∷ es) = closures_given m e + all_given m es

both-Counted :
    (t h dt dh : ℕ) (c c1 c2 : Connection)
    → Counted t h c c1
    → Counted dt dh c1 c2
    → Counted (t + dt) (h + dh) c c2
both-Counted t h dt dh c c1 c2 r s =
    ground (arith, r.impl, r.send, r.recv, r.window, s.impl, s.send, s.recv, s.window)

After-trans :
    (t h dt dh : ℕ) (c c1 c2 : Connection)
    → After t h c c1
    → After dt dh c1 c2
    → After (t + dt) (h + dh) c c2
After-trans t h dt dh c c1 c2 a b = record {
  kept = b.kept;
  gone = b.gone;
  shut = λ s. b.shut (a.shut s);
  counted = λ o i n.
      let open1 = still_open c1.status.closing refl n in
      let r = a.counted o i open1 in both-Counted t h dt dh c c1 c2 r (b.counted open1 r.impl n);
}
  where
    clash : {b : Bool} → b ≡ true → b ≡ false → ⊥
    clash p q = cc

    still_open :
        (b : Bool) → c1.status.closing ≡ b → c2.status.closing ≡ false → c1.status.closing ≡ false
    still_open true e n = absurd (clash (b.shut e) n)
    still_open false e n = e

module _ (k : Codec) (meanwhile : Connection → Connection) (service : Service)
    (parses : ℕ → Bytes → Bool) where
  -- The events, one after the other.
  pub lives : List ClientEvent → Living → Option Living
  lives [] l = some l
  lives (e ∷ es) l = client_step k meanwhile service parses e l >>= lives es

  -- Each may happen when its turn comes.
  abbrev pub MayHappen : List ClientEvent → Living → Type 0
  MayHappen [] l = Unit
  MayHappen (e ∷ es) l =
      IsClientEvent k meanwhile service parses e l
      × ((l1 : Living) → client_step k meanwhile service parses e l ≡ some l1 → MayHappen es l1)

  lives-Stepped :
      (es : List ClientEvent) (l : Living)
      → IsLiving l
      → MayHappen es l
      → (l' : Living) × (lives es l ≡ some l')
        × Stepped (all_ticks es) (all_heard es) (λ m. all_given m es) l l'
  unfolding lives
  lives-Stepped [] l v h = (
    l,
    refl,
    record {
      living = v;
      totals = λ m. omega arith;
      after = record {
        kept = v.kept;
        gone = v.gone;
        shut = λ s. s;
        counted =
            λ o i n. record { impl = i; send = omega arith; recv = omega arith; window = inl refl };
      };
    },
  )
  lives-Stepped (e ∷ es) l v (h, hs) =
      let (l1, f, s) = client_step-Stepped k meanwhile service parses e l v h in
      let (l2, fs, ss) = lives-Stepped es l1 s.living (hs l1 f) in
      (
        l2,
        ground (arith, f, fs),
        record {
          living = ss.living;
          totals = λ m. omega (arith, s.totals m, ss.totals m);
          after =
              After-trans (client_ticks e) (client_heard e) (all_ticks es) (all_heard es)
                l.client.connection l1.client.connection l2.client.connection s.after ss.after;
        },
      )

  -- Whatever calls a client in order makes, whatever bytes it reads but a length with which the decoder throws (the
  -- process would end), and whatever else happens to its connection, no event fails, and once the table is released the
  -- closure of every call has been run exactly once, in addition to what was run before. The events are those that may happen (`IsClientEvent`), with other threads that keep to `IsOthers`
  -- and `IsThorough`, without
  -- a `Disconnect` of its own, and the counter stays an `int`.
  pub lives-release :
      (es : List ClientEvent) (l : Living)
      → IsLiving l
      → MayHappen es l
      → (l' : Living) × (lives es l ≡ some l')
        × IsLiving l'
        × ((m : ℕ)
            → times m (release_response_table parses l'.client).world.ran
              ≡ total m l.client + all_given m es)
  lives-release es l v h =
      let (l', e, s) = lives-Stepped es l v h in
      (l', e, s.living, λ m. omega (arith, release-total parses m l'.client, s.totals m))

  -- A call ends though its peer is silent. A client in order, with its half, that has sent at most two heartbeats more
  -- than it received, makes any calls, reads any bytes but a length with which the decoder throws (the process would end),
  -- and anything else that may happen does, but a `Disconnect` of
  -- its own: no event fails, and once the number sent is more than two above the number received, the connection is
  -- closing, no call waits, and the closure of every call has been run exactly once, in addition to what was run before. Other
  -- threads keep to `IsOthers` and `IsThorough`, and the counter `seq` stays an `int`.
  pub silent_peer-ran :
      (es : List ClientEvent) (l : Living)
      → IsLiving l
      → l.client.connection.impl ≡ true
      → l.client.connection.send_package ≤ l.client.connection.recv_package + 2
      → MayHappen es l
      → l.client.connection.recv_package + all_heard es + 2
        < l.client.connection.send_package + all_ticks es
      → (l' : Living) × (lives es l ≡ some l')
        × (l'.client.connection.status.closing ≡ true)
        × (l'.client.table ≡ [])
        × ((m : ℕ) → times m l'.client.world.ran ≡ total m l.client + all_given m es)
  silent_peer-ran es l v i w h late =
      let (l', e, s) = lives-Stepped es l v h in
      let c' = l'.client.connection in
      let shut : c'.status.closing ≡ true = closes s.after in
      let none_waits = s.living.empty (s.living.gone shut) in
      (l', e, shut, none_waits, λ m. omega (arith, ap (waiting m) none_waits, s.totals m))
    where
      closes :
          {c' : Connection}
          → After (all_ticks es) (all_heard es) l.client.connection c'
          → c'.status.closing ≡ true
      closes {c'} a = elim (Bool-cases c'.status.closing) [
        | inl o ↦ o
        | inr o ↦ elim (Bool-cases l.client.connection.status.closing) [
          | inl p ↦ a.shut p
          | inr p ↦ let n = a.counted p i o in absurd (ground (arith, n.send, n.recv, n.window))
        ]
      ]
