-- ===== src/Rpc/Once.antt =====
-- RawProtobufConnection.cpp: the closure of every call is run once, whatever becomes of the call.
use tt3d.Base.{
  ℕ, ◌+◌, ◌≡◌, refl, arith, Bool, not, ◌||◌, List, [], ◌∷◌, Option, none, some, length,
  if◌then◌else◌, ◌>>=◌, Bool-cases, Option-cases, inl, inr,
}
use tt3d.Wire.{Bytes, Codec, MetaData}
use tt3d.Raw.{Connection, lock_shared}
use tt3d.Methods.{Service, HandlerTable}
use tt3d.Methods
use tt3d.Rpc.{
  Call, Reason, Client, Table, keys, lookup, remove, finish, fresh_identify, send, raw_call_method,
  call_method, handle, answered, release_response_table,
}
use tt3d.Rpc.Times.{
  times, weight, waiting, finish-times, callback-times, remove-waiting, abort_all-times,
}

-- How often the closure was run, and how often it is still to be.
abbrev pub total : ℕ → Client → ℕ
total m s = times m s.world.ran + waiting m s.table

-- What the release of the table leaves.
pub release-total :
    (parses : ℕ → Bytes → Bool) (m : ℕ) (s : Client)
    → times m (release_response_table parses s).world.ran ≡ total m s
unfolding release_response_table
release-total parses m s = abort_all-times parses m s.table s.world

module _ (k : Codec) (meanwhile : Connection → Connection) (service : Service)
    (handlers : Option HandlerTable) (parses : ℕ → Bytes → Bool) where
  -- What happens to a client: a call, a message that was read, and whatever else changes its connection.
  pub data Op : Type 0 where
    calls : ℕ → ℕ → Option Bytes → Call → Op
    receives : MetaData → Op
    connection_does : (Connection → Connection) → Op

  unfoldable pub op : Op → Client → Option Client
  op (calls identify hash content call) s = call_method k identify hash content call s
  op (receives meta) s = handle k meanwhile service handlers parses meta s >>= λ r. some r.1
  op (connection_does f) s = some (record s { connection = f s.connection })

  unfoldable pub ops : List Op → Client → Option Client
  unfolding op
  ops [] s = some s
  ops (o ∷ os) s = op o s >>= ops os

  -- How many closures were given with calls of this number.
  abbrev pub given : ℕ → List Op → ℕ
  given m [] = 0
  given m (calls identify hash content call ∷ os) = weight m call + given m os
  given m (receives meta ∷ os) = given m os
  given m (connection_does f ∷ os) = given m os

  send-total :
      (m identify id : ℕ) (content : Option Bytes) (call : Call) (t : Table) (s s' : Client)
      → send k identify id content call (record s { table = (id, call) ∷ t }) ≡ some s'
      → total m s' ≡ times m s.world.ran + waiting m t + weight m call
  unfolding send remove
  send-total m identify id none call t s s' e =
      ground (arith, e, finish-times m Reason.append_error call s.world)
  send-total m identify id (some content) call t s s' e = ground (arith, e)

  raw_call_method-total :
      (m identify hash : ℕ) (content : Option Bytes) (call : Call) (s s' : Client)
      → raw_call_method k identify hash content call s ≡ some s'
      → total m s' ≡ total m s + weight m call
  unfolding raw_call_method
  raw_call_method-total m identify hash content call s s' e =
      elim (Option-cases (fresh_identify (length s.table + 1) s.seq hash (keys s.table))) [
        | inl n ↦ ground (arith, n, e)
        | inr ((seq, id), n) ↦ omega (
          arith,
          send-total m identify id content call s.table (record s { seq = seq }) s'
              (ground (arith, n, e)),
        )
      ]

  -- The part of `CallMethod` under the lock.
  locked-total :
      (m identify hash : ℕ) (content : Option Bytes) (call : Call) (c : Connection) (s s' : Client)
      → (if c.status.closing || not c.impl
          then some (record s { connection = c; world = finish Reason.disconnected call s.world })
          else raw_call_method k identify hash content call (record s { connection = c }))
        ≡ some s'
      → total m s' ≡ total m s + weight m call
  locked-total m identify hash content call c s s' e =
      elim (Bool-cases (c.status.closing || not c.impl)) [
        | inl n ↦ ground (arith, n, e, finish-times m Reason.disconnected call s.world)
        | inr n ↦
            raw_call_method-total m identify hash content call (record s { connection = c }) s'
              (ground (arith, n, e))
      ]

  pub call_method-total :
      (m identify hash : ℕ) (content : Option Bytes) (call : Call) (s s' : Client)
      → call_method k identify hash content call s ≡ some s'
      → total m s' ≡ total m s + weight m call
  unfolding call_method
  call_method-total m identify hash content call s s' e =
      elim (Option-cases (lock_shared s.connection)) [
        | inl n ↦ ground (arith, n, e)
        | inr (c, n) ↦
            let middle : Option Client =
              if c.status.closing || not c.impl
              then some
                  (record s { connection = c; world = finish Reason.disconnected call s.world })
              else raw_call_method k identify hash content call (record s { connection = c }) in
            elim (Option-cases middle) [
              | inl q ↦ ground (arith, n, q, e)
              | inr (s1, q) ↦
                  ground (arith, n, q, e, locked-total m identify hash content call c s s1 q)
            ]
      ]

  pub answered-total :
      (m : ℕ) (meta : MetaData) (s : Client)
      → total m (answered parses meta (lookup meta.identify s.table) s).1 ≡ total m s
  unfolding answered
  answered-total m meta s = elim (Option-cases (lookup meta.identify s.table)) [
    | inl n ↦ rw n refl
    | inr (call, n) ↦ rw n (
        omega (
          arith,
          remove-waiting m meta.identify call s.table n,
          callback-times parses (some meta) m call s.world,
        ))
  ]

  handle-total :
      (m : ℕ) (meta : MetaData) (s : Client) (r : Bool × Client)
      → handle k meanwhile service handlers parses meta s ≡ some r
      → total m r.1 ≡ total m s
  unfolding handle
  handle-total m meta s r e =
      elim (Option-cases (Methods.handle k meanwhile service handlers meta s.connection)) [
        | inl n ↦ ground (arith, n, e)
        | inr ((b, c), n) ↦
            ground (arith, n, e, answered-total m meta (record s { connection = c }))
      ]

  op-total :
      (m : ℕ) (o : Op) (s s' : Client)
      → op o s ≡ some s'
      → total m s' ≡ total m s + given m (o ∷ [])
  unfolding op
  op-total m (calls identify hash content call) s s' e =
      omega (arith, call_method-total m identify hash content call s s' e)
  op-total m (receives meta) s s' e =
      elim (Option-cases (handle k meanwhile service handlers parses meta s)) [
        | inl n ↦ ground (arith, n, e)
        | inr (r, n) ↦ ground (arith, n, e, handle-total m meta s r n)
      ]
  op-total m (connection_does f) s s' e = ground (arith, e)

  given-cons : (m : ℕ) (o : Op) (os : List Op) → given m (o ∷ os) ≡ given m (o ∷ []) + given m os
  given-cons m (calls identify hash content call) os = omega arith
  given-cons m (receives meta) os = omega arith
  given-cons m (connection_does f) os = omega arith

  -- Whatever calls are made, messages read and other things happen to the connection, once the table has been
  -- released the closure of every call has been run exactly once, in addition to what was run before.
  pub ops-release :
      (m : ℕ) (os : List Op) (s s' : Client)
      → ops os s ≡ some s'
      → times m (release_response_table parses s').world.ran ≡ total m s + given m os
  unfolding ops release_response_table
  ops-release m [] s s' e = ground (arith, e, abort_all-times parses m s.table s.world)
  ops-release m (o ∷ os) s s' e = elim (Option-cases (op o s)) [
    | inl n ↦ ground (arith, n, e)
    | inr (s1, n) ↦ omega (
      arith,
      ops-release m os s1 s' (ground (arith, n, e)),
      op-total m o s s1 n,
      given-cons m o os,
    )
  ]
