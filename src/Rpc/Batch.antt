-- ===== src/Rpc/Batch.antt =====
-- Several calls over ProtobufConnection.cpp, RawProtobufConnection.cpp and RawConnection.cpp: all are made before
-- the server reads, and their responses come back in one stream.
use tt3d.Base.{
  ℕ, ◌+◌, ◌<◌, ◌≡◌, ◌∙◌, refl, ap, sym, subst, arith, Bool, true, List, [], ◌∷◌, ◌++◌, Option, some,
  length, if◌then◌else◌, ◌>>=◌, append-nil, append_assoc, map, All,
}
use tt3d.Base.Members.{find}
use tt3d.Wire.{Bytes, Codec, IsCodec, MetaData, encode_message, Outcome, decode_reads, new_decoder}
use tt3d.Wire.Feed.{concat}
use tt3d.Wire.World.{or_fault}
use tt3d.Wire.RoundTrip.{frames, deliver, Delivered, IsSendable, decode_reads-frames}
use tt3d.Raw.{Connection}
use tt3d.Raw.Stream.{stream, item_bytes}
use tt3d.Raw.Open.{IsOpen, Took, Took-trans}
use tt3d.Methods.{Service, HandlerTable, find_method}
use tt3d.Methods.Answer.{handle-Took}
use tt3d.Rpc.{World, Client, Table, keys, call_method_callback}
use tt3d.Rpc.Reply.{callback-ran}
use tt3d.Rpc.RoundTrip.{after, frame-item, server_handle, client_handle, client_handle-answered}
use tt3d.Rpc.Exchange.{
  Exchange, request_of, response_of, bytes_of, entries, Apart, room, call_all, call_all-SentAll,
  nothing_sent,
}
use tt3d.Rpc.Matching.{Apart-fewer, answered_first}

pub frames-bytes_of :
    (k : Codec) {W : Type 0} (h : MetaData → W → Bool × W) (ms : List MetaData)
    → frames k h ms ≡ bytes_of k ms
unfolding frames
frames-bytes_of k h [] = refl
frames-bytes_of k h (m ∷ ms) =
    ap (λ b. b ++ frames k h ms) (frame-item (encode_message k m))
    ∙ ap (λ b. item_bytes (encode_message k m) ++ b) (frames-bytes_of k h ms)

-- The answers, and the closures, in the order of the calls.
abbrev pub answers : List Exchange → List (ℕ × Bytes)
answers [] = []
answers (x ∷ xs) = (x.call.number, x.answer) ∷ answers xs

abbrev pub closures : List Exchange → List ℕ
closures [] = []
closures (x ∷ xs) = (if x.call.done then x.call.number ∷ [] else []) ++ closures xs

pub record RepliedAll (xs : List Exchange) (t : Table) (w : World) (s' : Client) : Type 0 where
  pub table : s'.table ≡ t
  pub filled : s'.world.filled ≡ w.filled ++ answers xs
  pub ran : s'.world.ran ≡ w.ran ++ closures xs

abbrev pub exchanges : List (ℕ × Exchange) → List Exchange
exchanges sent = map (λ p. p.1) sent

module _ (k : Codec) (meanwhile written : Connection → Connection) (service : Service)
    (handlers : HandlerTable) (parses : ℕ → Bytes → Bool) (cut cut' : Bytes → List Bytes) where
  -- What an exchange relies on: identifies of 64 bits, a method that the server has registered, and messages that
  -- can be sent and that parse.
  pub record IsExchange (x : Exchange) : Type 0 where
    pub hash : x.hash < 18446744073709551616
    pub registered : find_method x.identify handlers ≡ some x.method
    pub parsed : service.parses x.method x.content ≡ true
    pub responds : service.answer x.method x.content ≡ some x.answer
    pub taken : parses x.call.number x.answer ≡ true
    pub request : (id : ℕ) → id < 18446744073709551616 → IsSendable k (request_of (id, x))
    pub response : (id : ℕ) → id < 18446744073709551616 → IsSendable k (response_of (id, x))

  abbrev server : MetaData → Option Connection → Bool × Option Connection
  server = or_fault (server_handle k meanwhile written service handlers parses cut cut')

  abbrev client : MetaData → Option Client → Bool × Option Client
  client = or_fault (client_handle k meanwhile written service handlers parses cut cut')

  -- The server answers the requests in their order.
  requests_served :
      (sent : List (ℕ × Exchange)) (c : Connection)
      → ((d : Connection) → meanwhile d ≡ d)
      → All (λ p. IsExchange p.1) sent
      → IsOpen c
      → (c' : Connection) × (deliver k server (map request_of sent) (some c) ≡ (true, some c'))
        × Took (bytes_of k (map response_of sent)) c c'
  unfolding deliver or_fault server_handle
  requests_served [] c q h o = (c, refl, nothing_sent c o)
  requests_served ((id, x) ∷ sent) c q (h, hs) o =
      let (c1, e, t) =
        handle-Took k meanwhile service handlers (request_of (id, x)) x.method x.answer c q o
          h.registered h.parsed h.responds in
      let (c2, es, ts) = requests_served sent c1 q hs t.kept in
      (c2, ground (arith, e, es), Took-trans t ts)

  -- The client finds the call of each response.
  responses_taken :
      (sent : List (ℕ × Exchange)) (t : Table) (s : Client)
      → s.table ≡ entries sent t
      → Apart sent t
      → All (λ p. IsExchange p.1) sent
      → (s' : Client) × (deliver k client (map response_of sent) (some s) ≡ (true, some s'))
        × RepliedAll (exchanges sent) t s.world s'
  unfolding deliver or_fault find
  responses_taken [] t s e a h = (
    s,
    refl,
    record {
      table = e;
      filled = sym (append-nil s.world.filled);
      ran = sym (append-nil s.world.ran);
    },
  )
  responses_taken ((id, x) ∷ sent) t s e (n, a) (h, hs) =
      let m = response_of (id, x) in
      let s1 = record s {
        table = entries sent t;
        world = call_method_callback parses (some m) x.call s.world;
      } in
      let one =
        client_handle-answered k meanwhile written service handlers parses cut cut' m s (true, s1)
          (answered_first parses id x.call x.answer sent t s e a) in
      let (f, r) = callback-ran parses m x.call s.world h.taken in
      let (s2, es, all) =
        responses_taken sent t s1 refl
          (Apart-fewer sent ((id, x.call) ∷ t) t (λ j g. ground (arith, g)) a) hs in
      (
        s2,
        ground (arith, one, es),
        record {
          table = all.table;
          filled =
              all.filled
              ∙ ap (λ l. l ++ answers (exchanges sent)) f
              ∙ append_assoc s.world.filled _ _;
          ran = all.ran ∙ ap (λ l. l ++ closures (exchanges sent)) r ∙ append_assoc s.world.ran _ _;
        },
      )

  each :
      (sent : List (ℕ × Exchange))
      → All IsExchange (exchanges sent)
      → All (λ p. IsExchange p.1) sent
  each [] h = tt
  each (p ∷ sent) (h, hs) = (h, each sent hs)

  sendable :
      (sent : List (ℕ × Exchange))
      → All (λ p. p.0 < 18446744073709551616) sent
      → All (λ p. IsExchange p.1) sent
      → All (IsSendable k) (map request_of sent) × All (IsSendable k) (map response_of sent)
  sendable [] b h = (tt, tt)
  sendable ((id, x) ∷ sent) (b, bs) (h, hs) =
      let (r, q) = sendable sent bs hs in ((h.request id b, r), (h.response id b, q))

  hashes : (xs : List Exchange) → All IsExchange xs → All (λ x. x.hash < 18446744073709551616) xs
  hashes [] h = tt
  hashes (x ∷ xs) (h, hs) = (h.hash, hashes xs hs)

  -- The messages of a stream are read.
  messages_read :
      {W : Type 0} (handler : MetaData → Option W → Bool × Option W) (ms : List MetaData)
      (bytes : Bytes) (cutter : Bytes → List Bytes) (w w' : Option W)
      → IsCodec k
      → All (IsSendable k) ms
      → ((b : Bytes) → concat (cutter b) ≡ b)
      → bytes ≡ bytes_of k ms
      → deliver k handler ms w ≡ (true, w')
      → after (decode_reads k handler new_decoder (cutter bytes) w) ≡ w'
  messages_read handler ms bytes cutter w w' codec snd c e d = delivered w' _ (
      subst (λ r. Delivered k handler r (decode_reads k handler new_decoder (cutter bytes) w)) d
        (decode_reads-frames k handler ms (cutter bytes) w codec snd
          (c bytes ∙ e ∙ sym (frames-bytes_of k handler ms))))
    where
      delivered : (v : Option _) (o : Outcome _) → Delivered k handler (true, v) o → after o ≡ v
      delivered v o (d', i, r) = rw r

  -- So many calls are made, the server reads what the client's connection has to write, in the pieces of `cut`, and
  -- then the client, to whose connection `written` has happened, reads what the server's connection has to
  -- write, in the pieces of `cut'`.
  pub batch : List Exchange → Client → Connection → Option Client
  batch xs s c = do
    s1 ← call_all k xs s
    c1 ← after (decode_reads k server new_decoder (cut (stream s1.connection)) (some c))
    let s2 = record s1 { connection = written s1.connection }
    after (decode_reads k client new_decoder (cut' (stream c1)) (some s2))

  -- Any number of calls that are made before the server reads come back: with a codec that keeps its
  -- promises, on open connections that have nothing else to write and that other threads leave alone while
  -- the server answers, while the counter `seq` stays an `int`, and however the bytes are cut into reads,
  -- each call gets the answer of its own method to its own request, in the order of the calls, its closure
  -- is run, and only the handlers that waited before are left in the table. The methods are registered, and
  -- the messages parse and can be sent.
  pub batch-RepliedAll :
      (xs : List Exchange) (s : Client) (c : Connection)
      → IsCodec k
      → ((d : Connection) → meanwhile d ≡ d)
      → ((b : Bytes) → concat (cut b) ≡ b)
      → ((b : Bytes) → concat (cut' b) ≡ b)
      → IsOpen s.connection
      → IsOpen c
      → stream s.connection ≡ []
      → stream c ≡ []
      → s.seq + room (length xs) (length (keys s.table)) < 2147483648
      → All IsExchange xs
      → (s' : Client) × (batch xs s c ≡ some s') × RepliedAll xs s.table s.world s'
  unfolding batch
  batch-RepliedAll xs s c codec q cuts cuts' o oc e ec bound h =
      let (sent, s1, same, e1, all) = call_all-SentAll k xs s o (hashes xs h) bound in
      let hs = each sent (subst (All IsExchange) (sym same) h) in
      let (snd, snd') = sendable sent all.small hs in
      let (c1, e2, took) = requests_served sent c q hs oc in
      let s2 = record s1 { connection = written s1.connection } in
      let (s', e3, r) = responses_taken sent s.table s2 all.table all.apart hs in
      let there =
        messages_read server (map request_of sent) (stream s1.connection) cut (some c) (some c1)
          codec snd cuts (all.took.flow ∙ ap (λ b. b ++ bytes_of k (map request_of sent)) e) e2 in
      let back =
        messages_read client (map response_of sent) (stream c1) cut' (some s2) (some s') codec snd'
          cuts' (took.flow ∙ ap (λ b. b ++ bytes_of k (map response_of sent)) ec) e3 in
      (
        s',
        ground (arith, e1, there, back),
        subst (λ w. RepliedAll xs s.table w s') all.world
            (subst (λ ys. RepliedAll ys s.table s1.world s') same r),
      )
