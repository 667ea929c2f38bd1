-- ===== src/Rpc/Sending.antt =====
-- RawProtobufConnection.cpp and ProtobufConnection.cpp: `CallMethod` on an open connection.
use tt3d.Base.{ℕ, suc, ◌+◌, ◌-◌, ◌<◌, ◌≡◌, ◌∙◌, refl, ap, subst, arith, [], ◌∷◌, some, length}
use tt3d.Wire.{Bytes, Codec, encode_message}
use tt3d.Raw.{Connection, internal_push_data}
use tt3d.Raw.Stream.{item_bytes}
use tt3d.Raw.Open.{
  IsOpen, Took, Took-trans, Took-nil, with_shared, push-shared, schedule-shared,
  internal_push_data-Took, raw_schedule_write-Took,
}
use tt3d.Rpc.{
  Call, Client, Table, keys, fresh_identify, send, raw_call_method, call_method, request_meta,
}
use tt3d.Rpc.Fresh.{Found, fresh_identify_ends, fresh_identify-last}

length-keys : (t : Table) → length (keys t) ≡ length t
length-keys [] = refl
length-keys ((id, call) ∷ t) = ap (λ n. suc n) (length-keys t)

-- The search of `CallMethod`, for the calls of the table.
pub search :
    (s : Client) (hash : ℕ)
    → hash < 18446744073709551616
    → s.seq + (length (keys s.table) + 1) < 2147483648
    → Found s.seq (keys s.table) (fresh_identify (length s.table + 1) s.seq hash (keys s.table))
search s hash small bound =
    subst (λ n. Found s.seq (keys s.table) (fresh_identify (n + 1) s.seq hash (keys s.table)))
      (length-keys s.table) (fresh_identify_ends s.seq hash (keys s.table) small bound)

-- What a call leaves with the client, and on its connection.
pub record Sent (k : Codec) (identify id : ℕ) (content : Bytes) (call : Call) (s s' : Client)
    : Type 0 where
  pub table : s'.table ≡ (id, call) ∷ s.table
  pub world : s'.world ≡ s.world
  pub seq : s'.seq < s.seq + (length (keys s.table) + 1)
  pub took :
      Took
        (item_bytes (encode_message k (request_meta identify id content)))
        s.connection
        s'.connection

module _ (k : Codec) where
  send-Sent :
      (identify id : ℕ) (content : Bytes) (call : Call) (s : Client)
      → IsOpen s.connection
      → (c : Connection) × (send k identify id (some content) call s
          ≡ some (record s { connection = c }))
        × Took (item_bytes (encode_message k (request_meta identify id content))) s.connection c
        × (c.shared ≡ s.connection.shared)
  unfolding send
  send-Sent identify id content call s o =
      let item = encode_message k (request_meta identify id content) in
      let t1 = internal_push_data-Took item s.connection o in
      let (c, e, t2) = raw_schedule_write-Took (internal_push_data item s.connection) t1.kept in
      (
        c,
        ground (arith, e),
        Took-nil (Took-trans t1 t2),
        schedule-shared (internal_push_data item s.connection) c e ∙ push-shared item s.connection,
      )

  pub call_method-Sent :
      (identify hash : ℕ) (content : Bytes) (call : Call) (s : Client)
      → IsOpen s.connection
      → (f : Found s.seq
          (keys s.table)
          (fresh_identify (length s.table + 1) s.seq hash (keys s.table)))
      → (s' : Client) × (call_method k identify hash (some content) call s ≡ some s')
        × Sent k identify f.id content call s s'
  unfolding call_method raw_call_method
  call_method-Sent identify hash content call s o f =
      let n = s.connection.shared in
      let s1 = record s {
        connection = record s.connection { shared = n + 1 };
        table = (f.id, call) ∷ s.table;
        seq = f.last;
      } in
      let (c, e, t, l) = send-Sent identify f.id content call s1 (with_shared (n + 1) o) in
      let c' = record c { shared = c.shared - 1 } in
      (
        record s1 { connection = c' },
        ground (arith, o.open', o.impl, o.unlocked, f.ends, e, l),
        record {
          table = refl;
          world = refl;
          seq = omega (
            arith,
            length-keys s.table,
            fresh_identify-last (length s.table + 1) s.seq hash (keys s.table) f.last f.id f.ends,
          );
          took = record { kept = with_shared (c.shared - 1) t.kept; flow = t.flow };
        },
      )
