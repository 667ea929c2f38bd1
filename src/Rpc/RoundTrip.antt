-- ===== src/Rpc/RoundTrip.antt =====
-- A whole call, over ProtobufConnection.cpp, RawProtobufConnection.cpp and RawConnection.cpp on either side:
-- `CallMethod`, the bytes in any pieces, `HandleService`, the bytes of the response, `CallMethodCallback`.
use tt3d.Base.{
  ℕ, ◌+◌, ◌<◌, ◌≡◌, ◌∙◌, refl, ap, sym, arith, Bool, true, List, [], ◌∷◌, ◌++◌, Option, none, some,
  length, ◌>>=◌, subst, append-nil,
}
use tt3d.Wire.{
  Bytes, Codec, IsCodec, MetaData, encode_message, Outcome, goes_on, decode_reads, new_decoder,
}
use tt3d.Wire.Feed.{concat}
use tt3d.Wire.World.{or_fault}
use tt3d.Wire.RoundTrip.{frame_of, frames, deliver, Delivered, IsSendable, decode_reads-frames}
use tt3d.Raw.{Connection}
use tt3d.Raw.Stream.{stream, item_bytes}
use tt3d.Raw.Open.{IsOpen, Took}
use tt3d.Methods.{Service, HandlerTable, find_method, response_meta}
use tt3d.Methods
use tt3d.Methods.Answer.{handle-none, handle-Took}
use tt3d.Rpc.{Call, Client, keys, lookup, call_method, handle, answered, request_meta}
use tt3d.Rpc.Sending.{search, call_method-Sent}
use tt3d.Rpc.Reply.{Replied, answered-Replied}

-- The world that the reads leave, if the connection is still up.
abbrev pub after : {W : Type 0} → Outcome (Option W) → Option W
after (goes_on d w) = w
after other = none

module _ (k : Codec) {W : Type 0} (h : MetaData → W → Option (Bool × W)) where
  frames-one : (m : MetaData) → frames k (or_fault h) (m ∷ []) ≡ frame_of (encode_message k m)
  unfolding frames
  frames-one m = append-nil (frame_of (encode_message k m))

  pub Delivered-after :
      (w : Option W) (o : Outcome (Option W)) → Delivered k (or_fault h) (true, w) o → after o ≡ w
  Delivered-after w o (d, s, e) = rw e

  -- One message is read.
  pub one_message :
      (m : MetaData) (reads : List Bytes) (w w' : W)
      → IsCodec k
      → IsSendable k m
      → concat reads ≡ frame_of (encode_message k m)
      → h m w ≡ some (true, w')
      → after (decode_reads k (or_fault h) new_decoder reads (some w)) ≡ some w'
  unfolding deliver or_fault
  one_message m reads w w' codec snd cut e = Delivered-after (some w') _ (
      subst
        (λ r. Delivered k (or_fault h) r (decode_reads k (or_fault h) new_decoder reads (some w)))
        arrives
        (decode_reads-frames k (or_fault h) (m ∷ []) reads (some w) codec (snd, tt)
          (cut ∙ sym (frames-one m))))
    where
      arrives : deliver k (or_fault h) (m ∷ []) (some w) ≡ (true, some w')
      arrives = ground (arith, e)

pub frame-item : (o : Option (Bytes × Bytes)) → frame_of o ≡ item_bytes o
frame-item none = refl
frame-item (some (header, content)) = refl

-- The bytes that a side still has to write are those of its one message.
pub only_message :
    (k : Codec) (m : MetaData) (cutter : Bytes → List Bytes) (c c' : Connection)
    → ((b : Bytes) → concat (cutter b) ≡ b)
    → stream c ≡ []
    → Took (item_bytes (encode_message k m)) c c'
    → concat (cutter (stream c')) ≡ frame_of (encode_message k m)
only_message k m cutter c c' h e t =
    h (stream c')
    ∙ t.flow
    ∙ ap (λ b. b ++ item_bytes (encode_message k m)) e
    ∙ sym (frame-item (encode_message k m))

module _ (k : Codec) (meanwhile written : Connection → Connection) (service : Service)
    (handlers : HandlerTable) (parses : ℕ → Bytes → Bool) (cut cut' : Bytes → List Bytes) where
  unfoldable pub server_handle : MetaData → Connection → Option (Bool × Connection)
  server_handle = Methods.handle k meanwhile service (some handlers)

  unfoldable pub client_handle : MetaData → Client → Option (Bool × Client)
  client_handle = handle k meanwhile service none parses

  pub client_handle-answered :
      (meta : MetaData) (s : Client) (r : Bool × Client)
      → answered parses meta (lookup meta.identify s.table) s ≡ r
      → client_handle meta s ≡ some r
  unfolding client_handle handle
  client_handle-answered meta s r e =
      ground (arith, e, handle-none k meanwhile service meta s.connection)

  -- A call from end to end: it is made, the server reads what the client's connection has to write, in the
  -- pieces of `cut`, and then the client, to whose connection `written` has happened, reads what the server's
  -- connection has to write, in the pieces of `cut'`.
  pub conversation : ℕ → ℕ → Bytes → Call → Client → Connection → Option Client
  conversation identify hash content call s c = do
    s1 ← call_method k identify hash (some content) call s
    c1 ←
        after (
          decode_reads k (or_fault server_handle) new_decoder (cut (stream s1.connection)) (some c))
    let s2 = record s1 { connection = written s1.connection }
    after (decode_reads k (or_fault client_handle) new_decoder (cut' (stream c1)) (some s2))

  -- A call of a method that the server has registered comes back: with a codec that keeps its promises, on open
  -- connections that have nothing else to write, for an identify of 64 bits and a counter `seq` that stays an
  -- `int`, with messages that can be sent and that parse, and however the bytes are cut into reads,
  -- the method is called with the request, the client gets the method's answer for this call and none other,
  -- the call's closure is run, its controller notified, and its entry is out of the table.
  pub conversation-Replied :
      (identify hash method : ℕ) (content answer : Bytes) (call : Call) (s : Client)
      (c : Connection)
      → IsCodec k
      → ((d : Connection) → meanwhile d ≡ d)
      → ((b : Bytes) → concat (cut b) ≡ b)
      → ((b : Bytes) → concat (cut' b) ≡ b)
      → IsOpen s.connection
      → IsOpen c
      → stream s.connection ≡ []
      → stream c ≡ []
      → hash < 18446744073709551616
      → s.seq + (length (keys s.table) + 1) < 2147483648
      → find_method identify handlers ≡ some method
      → service.parses method content ≡ true
      → service.answer method content ≡ some answer
      → parses call.number answer ≡ true
      → ((id : ℕ) → id < 18446744073709551616 → IsSendable k (request_meta identify id content))
      → ((id : ℕ)
          → id < 18446744073709551616
          → IsSendable k (response_meta (request_meta identify id content) answer))
      → (s' : Client) × (conversation identify hash content call s c ≡ some s')
        × Replied answer call s s'
  unfolding conversation server_handle
  conversation-Replied identify hash method content answer call s c codec q cuts cuts' o oc e ec
        small bound m p a pr sends sends' =
      let f = search s hash small bound in
      let (s1, e1, sent) = call_method-Sent k identify hash content call s o f in
      let request = request_meta identify f.id content in
      let (c1, e2, took) =
        handle-Took k meanwhile service handlers request method answer c q oc m p a in
      let s2 = record s1 { connection = written s1.connection } in
      let (s', e3, r) =
        answered-Replied parses f.id (response_meta request answer) call s s2 refl sent.table
          sent.world pr in
      let there =
        one_message k server_handle request (cut (stream s1.connection)) c c1 codec
          (sends f.id f.small)
          (only_message k request cut s.connection s1.connection cuts e sent.took) e2 in
      let back =
        one_message k client_handle (response_meta request answer) (cut' (stream c1)) s2 s' codec
          (sends' f.id f.small)
          (only_message k (response_meta request answer) cut' c c1 cuts' ec took)
          (client_handle-answered (response_meta request answer) s2 (true, s') e3) in
      (s', ground (arith, e1, there, back), r)
