-- ===== src/Rpc/Hearing.antt =====
-- RawProtobufConnection.cpp: what the bytes that a client reads change of it.
use tt3d.Base.{
  ℕ, ◌≡◌, ◌∙◌, sym, subst, refl, arith, Bool, false, [], Option, none, some, Option-cases, inl, inr,
}
use tt3d.Wire.{Bytes, Codec, MetaData, Outcome, goes_on, closes, throws, spins, decode_bytes}
use tt3d.Wire.Feed.{decode_bytes-ne-spins}
use tt3d.Wire.World.{Stands, World, or_fault, or_fault-some, decode_bytes-World}
use tt3d.Raw.{Connection}
use tt3d.Methods.{Service}
use tt3d.Methods.Answer.{handle-none}
use tt3d.Rpc.{Client, lookup, answered, handle, release_response_table}
use tt3d.Rpc.Times.{abort_all-times}
use tt3d.Rpc.Once.{total, answered-total}
use tt3d.Rpc.Life.{Living, settle, taken_in, decode_client}

-- What messages change of a client.
pub record Heard (s s' : Client) : Type 0 where
  pub connection : s'.connection ≡ s.connection
  pub empty : s.table ≡ [] → s'.table ≡ []
  pub totals : (m : ℕ) → total m s' ≡ total m s

abbrev HeardBy : Client → Option Client → Type 0
HeardBy s none = ⊥
HeardBy s (some s') = Heard s s'

module _ (k : Codec) (meanwhile : Connection → Connection) (service : Service)
    (parses : ℕ → Bytes → Bool) where
  answered-Heard :
      (meta : MetaData) (s : Client)
      → Heard s (answered parses meta (lookup meta.identify s.table) s).1
  unfolding answered lookup
  answered-Heard meta s = record {
    connection = elim (Option-cases (lookup meta.identify s.table)) [
      | inl e ↦ rw e refl
      | inr (call, e) ↦ rw e refl
    ];
    empty = λ h. ground (arith, h);
    totals = λ m. answered-total k meanwhile service none parses m meta s;
  }

  Heard-trans : {s s1 s2 : Client} → Heard s s1 → Heard s1 s2 → Heard s s2
  Heard-trans h h1 = record {
    connection = h1.connection ∙ h.connection;
    empty = λ e. h1.empty (h.empty e);
    totals = λ m. h1.totals m ∙ h.totals m;
  }

  handle-answered :
      (meta : MetaData) (s : Client)
      → handle k meanwhile service none parses meta s
        ≡ some (answered parses meta (lookup meta.identify s.table) s)
  unfolding handle
  handle-answered meta s = ground (arith, handle-none k meanwhile service meta s.connection)

  handle-Heard :
      (s : Client) (meta : MetaData) (o : Option Client)
      → HeardBy s o
      → HeardBy s (or_fault (handle k meanwhile service none parses) meta o).1
  unfolding or_fault
  handle-Heard s meta none h = h
  handle-Heard s meta (some s1) h =
      let (b, s2) = answered parses meta (lookup meta.identify s1.table) s1 in
      subst (HeardBy s)
        (sym (
          or_fault-some (handle k meanwhile service none parses) meta s1 b s2
            (handle-answered meta s1)))
        (Heard-trans h (answered-Heard meta s1))

  taken_in-Heard :
      (l : Living) (o : Outcome (Option Client))
      → World (HeardBy l.client) o
      → Stands o
      → (o ≡ spins → ⊥)
      → (r : Bool × Living) × (taken_in k meanwhile service parses l o ≡ some r)
        × Heard l.client r.1.client
  taken_in-Heard l (goes_on d (some s)) h a n = (_, refl, h)
  taken_in-Heard l (goes_on d none) h a n = absurd h
  taken_in-Heard l (closes (some s)) h a n = (_, refl, h)
  taken_in-Heard l (closes none) h a n = absurd h
  taken_in-Heard l (throws w) h a n = absurd a
  taken_in-Heard l spins h a n = absurd (n refl)

  -- Whatever the bytes are, but for a length with which the decoder throws.
  pub decode_client-Heard :
      (bytes : Bytes) (l : Living)
      → Stands (
          decode_bytes k
            (or_fault (handle k meanwhile service none parses))
            l.decoder
            bytes
            (some l.client))
      → (r : Bool × Living) × (decode_client k meanwhile service parses bytes l ≡ some r)
        × Heard l.client r.1.client
  unfolding decode_client
  decode_client-Heard bytes l a =
      taken_in-Heard l _
        (decode_bytes-World k (or_fault (handle k meanwhile service none parses)) (HeardBy l.client)
          (handle-Heard l.client) l.decoder bytes (some l.client)
          (record { connection = refl; empty = λ e. e; totals = λ m. refl }))
        a
        (decode_bytes-ne-spins k (or_fault (handle k meanwhile service none parses)) l.decoder bytes
          (some l.client))

  pub settle-total :
      (m : ℕ) (had : Bool) (l : Living)
      → total m (settle k meanwhile service parses had l).client ≡ total m l.client
  unfolding release_response_table
  settle-total m had l = ground (arith, abort_all-times parses m l.client.table l.client.world)

  pub settle-empty :
      (had : Bool) (l : Living)
      → (had ≡ false → l.client.table ≡ [])
      → l.client.connection.impl ≡ false
      → (settle k meanwhile service parses had l).client.table ≡ []
  unfolding release_response_table
  settle-empty had l e i = ground (arith, e)

  pub settle-connection :
      (had : Bool) (l : Living)
      → (settle k meanwhile service parses had l).client.connection ≡ l.client.connection
  unfolding release_response_table
  settle-connection had l = ground arith
