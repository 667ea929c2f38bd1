-- ===== src/Rpc/Calling.antt =====
-- ProtobufConnection.cpp and RawProtobufConnection.cpp: what `CallMethod` does to a connection in order, open or not.
use tt3d.Base.{
  ℕ, ◌+◌, ◌-◌, ◌<◌, ◌≡◌, ◌∙◌, subst, refl, arith, Bool, true, false, not, ◌||◌, ◌∷◌, Option, none,
  some, length, Bool-cases, Option-cases, inl, inr,
}
use tt3d.Wire.{Bytes, Codec, encode_message}
use tt3d.Raw.{Connection, internal_push_data, raw_schedule_write}
use tt3d.Raw.Handlers.{Ends, Inv, Like}
use tt3d.Raw.Like.{Like-refl, Like-trans}
use tt3d.Rpc.{
  Call, Client, keys, finish, send, raw_call_method, call_method, request_meta, disconnected,
  append_error, remove,
}
use tt3d.Rpc.Sending.{search}

-- Like before, with the same numbers of heartbeats.
pub record Same (c c' : Connection) : Type 0 where
  pub like : Like c c'
  pub send : c'.send_package ≡ c.send_package
  pub recv : c'.recv_package ≡ c.recv_package

pub Same-Inv :
    (c c' : Connection) → Inv c → c.status.closing ≡ false → c.impl ≡ true → Same c c' → Inv c'
Same-Inv c c' v h i s =
    let l = s.like in
    let w = v.writing h in
    elim (Bool-cases c'.status.writing) [
      | inl e ↦ ground (
        arith,
        l.shared,
        l.exclusive,
        l.impl,
        l.socket,
        l.connection,
        l.closing,
        l.reads,
        l.reading,
        l.writing w,
        v.reading h,
        v.live h i,
      )
      | inr e ↦ ground (
        arith,
        l.shared,
        l.exclusive,
        l.impl,
        l.socket,
        l.connection,
        l.closing,
        l.reads,
        l.reading,
        l.writing w,
        v.reading h,
        v.live h i,
      )
    ]

push-Same : (item : Option (Bytes × Bytes)) (c : Connection) → Same c (internal_push_data item c)
unfolding internal_push_data
push-Same none c = record { like = ground arith; send = refl; recv = refl }
push-Same (some (h, d)) c = ground arith

schedule-Same : (c : Connection) → c.socket ≡ true → Ends (Same c) (raw_schedule_write c)
unfolding raw_schedule_write
schedule-Same c h = ground arith

ended :
    (P : Connection → Type 0) (o : Option Connection)
    → Ends P o
    → (c : Connection) × (o ≡ some c) × P c
ended P none e = absurd e
ended P (some c) e = (c, refl, e)

Same-trans : {a b c : Connection} → Same a b → Same b c → Same a c
Same-trans s t = record {
  like = Like-trans s.like t.like;
  send = t.send ∙ s.send;
  recv = t.recv ∙ s.recv;
}

-- The call ends; the connection is like before, and without a half no handler was put into the table.
pub record Called (s s' : Client) : Type 0 where
  pub kept : Inv s'.connection
  pub same : Same s.connection s'.connection
  pub waits : (s.connection.impl ≡ false) → s'.table ≡ s.table

locked : Connection → Connection
locked c = record c { shared = c.shared + 1 }

unlocked : Connection → Connection
unlocked c = record c { shared = c.shared - 1 }

unlocked-Same : (c d : Connection) → Same (locked c) d → Same c (unlocked d)
unfolding locked unlocked
unlocked-Same c d s =
    let l = s.like in
    record {
      like = record {
        shared = omega (arith, l.shared);
        exclusive = l.exclusive;
        impl = l.impl;
        socket = l.socket;
        connection = l.connection;
        closing = l.closing;
        reads = l.reads;
        reading = l.reading;
        writing = l.writing;
      };
      send = s.send;
      recv = s.recv;
    }

clash : {b : Bool} → b ≡ true → b ≡ false → ⊥
clash p q = cc

module _ (k : Codec) (identify hash : ℕ) (content : Option Bytes) (call : Call) (s : Client) where
  closed-Called :
      Inv s.connection
      → (s.connection.status.closing || not s.connection.impl) ≡ true
      → (s' : Client) × (call_method k identify hash content call s ≡ some s') × Called s s'
  unfolding call_method locked unlocked
  closed-Called v h = (
    record s {
      connection = unlocked (locked s.connection);
      world = finish disconnected call s.world;
    },
    ground (arith, v.unlocked, v.unshared, h),
    record {
      kept = subst (λ n. Inv (record s.connection { shared = n })) (omega arith) v;
      same =
          unlocked-Same s.connection (locked s.connection)
            (record { like = Like-refl (locked s.connection); send = refl; recv = refl });
      waits = λ i. refl;
    },
  )

  -- What is sent, or not, under the lock.
  sent :
      (id seq : ℕ)
      → s.connection.socket ≡ true
      → let s1 : Client = record s {
        connection = locked s.connection;
        table = (id, call) ∷ s.table;
        seq = seq;
      } in
        (s2 : Client) × (send k identify id content call s1 ≡ some s2)
        × Same s1.connection s2.connection
  unfolding send locked
  sent id seq h = elim (Option-cases content) [
    | inl e ↦
        let s1 : Client = record s {
          connection = locked s.connection;
          table = (id, call) ∷ s.table;
          seq = seq;
        } in
        (
          record s1 { table = remove id s1.table; world = finish append_error call s.world },
          ground (arith, e),
          record { like = Like-refl s1.connection; send = refl; recv = refl },
        )
    | inr (bytes, e) ↦
        let s1 : Client = record s {
          connection = locked s.connection;
          table = (id, call) ∷ s.table;
          seq = seq;
        } in
        let item = encode_message k (request_meta identify id bytes) in
        let c1 = internal_push_data item s1.connection in
        let p = push-Same item s1.connection in
        let (c2, e2, q) =
          ended (Same c1) (raw_schedule_write c1) (schedule-Same c1 (p.like.socket ∙ h)) in
        (record s1 { connection = c2 }, ground (arith, e, e2), Same-trans p q)
  ]

  open-Called :
      Inv s.connection
      → (s.connection.status.closing || not s.connection.impl) ≡ false
      → hash < 18446744073709551616
      → s.seq + (length (keys s.table) + 1) < 2147483648
      → (s' : Client) × (call_method k identify hash content call s ≡ some s') × Called s s'
  unfolding call_method raw_call_method locked unlocked
  open-Called v h small bound =
      let c = s.connection in
      let i : c.impl ≡ true = ground (arith, h) in
      let o : c.status.closing ≡ false = ground (arith, h) in
      let f = search s hash small bound in
      let (s2, e, q) = sent f.id f.last (v.live o i).0 in
      (
        record s2 { connection = unlocked s2.connection },
        ground (arith, v.unlocked, v.unshared, i, o, f.ends, e, q.like.shared),
        record {
          kept = Same-Inv c (unlocked s2.connection) v o i (unlocked-Same c s2.connection q);
          same = unlocked-Same c s2.connection q;
          waits = λ n. absurd (clash i n);
        },
      )

  -- On a connection in order `CallMethod` returns, whatever its state.
  pub call_method-Called :
      Inv s.connection
      → hash < 18446744073709551616
      → s.seq + (length (keys s.table) + 1) < 2147483648
      → (s' : Client) × (call_method k identify hash content call s ≡ some s') × Called s s'
  call_method-Called v small bound =
      elim (Bool-cases (s.connection.status.closing || not s.connection.impl)) [
        | inl h ↦ closed-Called v h
        | inr h ↦ open-Called v h small bound
      ]
