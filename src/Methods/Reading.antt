-- ===== src/Methods/Reading.antt =====
-- RawConnection.cpp, RawConnection.hpp and ProtobufConnection.cpp: a read whose bytes are decoded and whose
-- requests are served, as one event of the connection.
use tt3d.Base.{
  ℕ, ◌≡◌, ◌≢◌, ◌<◌, ◌+◌, ◌-◌, ◌||◌, arith, refl, sym, subst, Bool, false, Option, none, some,
  Option-cases, Bool-cases, inl, inr,
}
use tt3d.Wire.{
  Bytes, Codec, MetaData, Decoder, Outcome, goes_on, closes, throws, spins, decode_bytes,
}
use tt3d.Wire.Feed.{decode_bytes-ne-spins}
use tt3d.Raw.{Connection, read_done}
use tt3d.Raw.Like.{Like-refl, Like-trans}
use tt3d.Raw.Open.{Flags}
use tt3d.Wire.World.{or_fault, or_fault-some, or_fault-none, World, Stands, decode_bytes-World}
use tt3d.Raw.Handlers.{Ends, Inv, IsOthers, Like, IsDecode, step-Inv}
use tt3d.Methods.{
  Service, HandlerTable, handle, verdict, decode_service, decoded_service, read_service, result_or,
}
use tt3d.Methods.Serving.{Like-Flags, handle-Like, handle-ends}

-- No handler has faulted.
abbrev Alive : Connection → Option Connection → Type 0
Alive c none = ⊥
Alive c (some c') = Like c c'

-- What `Decode` does of its own to the connection.
abbrev Served : Connection → Option Connection → Type 0
Served c none = Unit
Served c (some c') = Like c c'

verdict-Like :
    (c : Connection) (o : Outcome (Option Connection))
    → World (Served c) o
    → Like c (result_or c (verdict o)).1
verdict-Like c (goes_on d (some c')) w = w
verdict-Like c (closes (some c')) w = w
verdict-Like c (throws w') w = Like-refl c
verdict-Like c (goes_on d none) w = Like-refl c
verdict-Like c (closes none) w = Like-refl c
verdict-Like c spins w = Like-refl c

verdict-some :
    (c : Connection) (o : Outcome (Option Connection))
    → World (Alive c) o
    → Stands o
    → o ≢ spins
    → (r : Bool × Connection) × (verdict o ≡ some r)
verdict-some c (goes_on d (some c')) w a n = (_, refl)
verdict-some c (goes_on d none) w a n = absurd w
verdict-some c (closes (some c')) w a n = (_, refl)
verdict-some c (closes none) w a n = absurd w
verdict-some c (throws w') w a n = absurd a
verdict-some c spins w a n = absurd (n refl)

module _ (k : Codec) (meanwhile : Connection → Connection) (s : Service)
    (table : Option HandlerTable) where
  alive :
      (c : Connection) (m : MetaData) (w : Option Connection)
      → ((d : Connection) → Like d (meanwhile d))
      → ((method : ℕ) (request : Bytes)
          → (content : Bytes) × (s.answer method request ≡ some content))
      → Flags c
      → Alive c w
      → Alive c (or_fault (handle k meanwhile s table) m w).1
  unfolding or_fault
  alive c m none q a f p = p
  alive c m (some c1) q a f p =
      let ((b, c2), e) = handle-ends k meanwhile s table m c1 q a (Like-Flags p f) in
      subst (Alive c) (sym (or_fault-some (handle k meanwhile s table) m c1 b c2 e))
        (Like-trans p (handle-Like k meanwhile s table m c1 b c2 q e))

  -- Where every response serializes, no handler faults while bytes are decoded on a connection that can write.
  decode_bytes-Alive :
      (d : Decoder) (bytes : Bytes) (c : Connection)
      → ((e : Connection) → Like e (meanwhile e))
      → ((method : ℕ) (request : Bytes)
          → (content : Bytes) × (s.answer method request ≡ some content))
      → Flags c
      → World (Alive c) (decode_bytes k (or_fault (handle k meanwhile s table)) d bytes (some c))
  decode_bytes-Alive d bytes c q a f =
      decode_bytes-World k (or_fault (handle k meanwhile s table)) (Alive c)
        (λ m w p. alive c m w q a f p) d bytes (some c) (Like-refl c)

  -- So `Decode` has a result, unless an exception leaves the decoder.
  decode_service-ends :
      (d : Decoder) (bytes : Bytes) (c : Connection)
      → ((e : Connection) → Like e (meanwhile e))
      → ((method : ℕ) (request : Bytes)
          → (content : Bytes) × (s.answer method request ≡ some content))
      → Flags c
      → Stands (decode_bytes k (or_fault (handle k meanwhile s table)) d bytes (some c))
      → (r : Bool × Connection) × (decode_service k meanwhile s table d bytes c ≡ some r)
  unfolding decode_service
  decode_service-ends d bytes c q a f n =
      verdict-some c (decode_bytes k (or_fault (handle k meanwhile s table)) d bytes (some c))
        (decode_bytes-Alive d bytes c q a f) n
        (decode_bytes-ne-spins k (or_fault (handle k meanwhile s table)) d bytes (some c))

  -- Whatever a handler does, `Decode` does to the connection no more than to write.
  served :
      (c : Connection) (m : MetaData) (w : Option Connection)
      → ((d : Connection) → Like d (meanwhile d))
      → Served c w
      → Served c (or_fault (handle k meanwhile s table) m w).1
  unfolding or_fault
  served c m none q p = tt
  served c m (some c1) q p = elim (Option-cases (handle k meanwhile s table m c1)) [
    | inl n ↦ subst (Served c) (sym (or_fault-none (handle k meanwhile s table) m c1 n)) tt
    | inr ((b, c2), n) ↦
        subst (Served c) (sym (or_fault-some (handle k meanwhile s table) m c1 b c2 n))
          (Like-trans p (handle-Like k meanwhile s table m c1 b c2 q n))
  ]

  decoded_service-IsDecode :
      (d : Decoder) (bytes : Bytes)
      → ((e : Connection) → Like e (meanwhile e))
      → IsDecode (decoded_service k meanwhile s table d bytes)
  unfolding decode_service
  decoded_service-IsDecode d bytes q c = verdict-Like c _ (
      decode_bytes-World k (or_fault (handle k meanwhile s table)) (Served c)
        (λ m w p. served c m w q p) d bytes (some c) (Like-refl c))

  -- In a connection in order whose services give responses that serialize, a read that completes ends without a fault
  -- and leaves the connection in order: with no lock held, and at most one read and one write outstanding. This
  -- holds for all bytes, whatever requests they bring and whatever the state of the decoder, but for a length with which
  -- the decoder throws. Other threads only write between two calls of a handler, and keep to `IsOthers`.
  pub read_service-Inv :
      (d : Decoder) (bytes : Bytes) (error : Bool) (f : Connection → Connection) (c : Connection)
      → ((e : Connection) → Like e (meanwhile e))
      → ((method : ℕ) (request : Bytes)
          → (content : Bytes) × (s.answer method request ≡ some content))
      → IsOthers f
      → Inv c
      → 0 < c.reads
      → ((c.status.closing || error) ≡ false
          → Stands (
              decode_bytes k
                (or_fault (handle k meanwhile s table))
                d
                bytes
                (some (record c { reads = c.reads - 1; shared = c.shared + 1 }))))
      → Ends Inv (read_service k meanwhile s table d bytes error f c)
  unfolding read_service
  read_service-Inv d bytes error f c q a o v r n =
      let after =
        step-Inv (read_done error (decoded_service k meanwhile s table d bytes) f) c v
          (r, decoded_service-IsDecode d bytes q, o) in
      elim (Bool-cases (c.status.closing || error)) [
        | inl h ↦ rw h after
        | inr h ↦
            let open' : c.status.closing ≡ false = ground (arith, h) in
            let impl = v.attached open' (omega (arith, r)) in
            let (result, e) =
              decode_service-ends d bytes (record c { reads = c.reads - 1; shared = c.shared + 1 })
                q a (open', impl, v.unlocked, (v.live open' impl).0) (n h) in
            rw h (rw e after)
      ]
