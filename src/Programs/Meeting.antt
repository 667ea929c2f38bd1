-- ===== src/Programs/Meeting.antt =====
-- src/client/ClientMain.cpp against src/server/main.cpp: what becomes of the client's request.
use tt3d.Base.{
  ℕ, ◌<◌, ◌≡◌, ◌∙◌, refl, ap, sym, subst, arith, Bool, true, List, [], ◌∷◌, ◌++◌, Option, none,
  some,
}
use tt3d.Base.Members.{find}
use tt3d.Wire.{Bytes, Codec, IsCodec}
use tt3d.Wire.Feed.{concat}
use tt3d.Wire.RoundTrip.{IsSendable}
use tt3d.Raw.{Connection, attach, new_connection}
use tt3d.Raw.Stream.{stream}
use tt3d.Raw.Open.{IsOpen}
use tt3d.Methods.{HandlerTable, find_method, response_meta}
use tt3d.Rpc.{Client, request_meta, handle}
use tt3d.Rpc.Sending.{search, Sent, call_method-Sent}
use tt3d.Rpc.Reply.{answered-Replied}
use tt3d.Rpc.RoundTrip.{one_message, only_message, client_handle, client_handle-answered}
use tt3d.Clients.{Game, ClientResponse, register}
use tt3d.Clients.Registry.{IsUint32, register-IsUint32}
use tt3d.ClientConnection.{ClientConnection, new_client_connection, try_each, timer_of}
use tt3d.ClientConnection.Connect.{Ends, connect-Ends, new_client_connection-IsReady}
use tt3d.Programs.{
  Messages, rpc_service_clients, serve, method_register, request, user_call, new_user, do_request,
  response_parses, is_done, meet,
}
use tt3d.Programs.Serving.{attached, serve-register}

-- What `protoc` promises: the request of this client, and a response whose numbers fit, read as they were written.
pub record IsMessages (msg : Messages) : Type 0 where
  pub requests :
      (b : Bytes) × (msg.write_request (request msg) ≡ some b)
      × (msg.read_request b ≡ some (request msg))
  pub responses :
      (r : ClientResponse)
      → IsUint32 r
      → (b : Bytes) × (msg.write_response r ≡ some b) × (msg.read_response b ≡ some r)

-- The line format takes the messages of this call.
pub record Fits (msg : Messages) (k : Codec) (identify : ℕ) : Type 0 where
  pub request :
      (b : Bytes) (id : ℕ)
      → msg.write_request (request msg) ≡ some b
      → id < 18446744073709551616
      → IsSendable k (request_meta identify id b)
  pub response :
      (r : ClientResponse) (q b : Bytes) (id : ℕ)
      → IsUint32 r
      → msg.write_response r ≡ some b
      → id < 18446744073709551616
      → IsSendable k (response_meta (request_meta identify id q) b)

-- What `DoRequest` leaves.
pub record Asked (msg : Messages) (k : Codec) (hash : Bytes → ℕ) (content : Bytes)
    (o : Option (ClientConnection × Client)) : Type 0 where
  pub client_connection : ClientConnection
  pub before : Client
  pub client : Client
  pub id : ℕ
  pub small : id < 18446744073709551616
  pub ends : o ≡ some (client_connection, client)
  pub fresh : before.world ≡ new_user msg
  pub table : before.table ≡ []
  pub open' : IsOpen before.connection
  pub empty : stream before.connection ≡ []
  pub sent : Sent k (hash (msg.full_name method_register)) id content (user_call msg) before client

-- The client's end, where the server has answered.
pub record Registered (msg : Messages) (game : Game) (answered : ClientResponse × Game)
    (o : Option (Game × Client)) : Type 0 where
  pub client : Client
  pub answer : Bytes
  pub ends : o ≡ some (answered.1, client)
  pub done : is_done client.world ≡ true
  pub filled : client.world.filled ≡ (0, answer) ∷ []
  pub reads : msg.read_response answer ≡ some answered.0

new_attached : (c : Connection) → attach new_connection ≡ some c → IsOpen c × (stream c ≡ [])
new_attached c e =
    let (d, f, o, s) = attached in
    (subst (λ o'. elim o' [ none ↦ Unit | some x ↦ IsOpen x × (stream x ≡ []) ]) (sym f ∙ e) (o, s))

module _ (msg : Messages) (k : Codec) (meanwhile : Connection → Connection) (sent : Bool)
    (hash : Bytes → ℕ) where
  pub do_request-Asked :
      (endpoints : List Bool) (content : Bytes)
      → try_each endpoints ≡ true
      → hash msg.response_name < 18446744073709551616
      → msg.write_request (request msg) ≡ some content
      → Asked msg k hash content (do_request msg k (timer_of sent meanwhile) hash endpoints)
  unfolding do_request new_client_connection
  do_request-Asked endpoints content y small w =
      let (cc, e, ends) =
        connect-Ends sent meanwhile endpoints new_client_connection new_client_connection-IsReady in
      let c = subst (λ b. Ends b new_client_connection cc) y ends in
      let (o, em) = new_attached cc.connection c.attached in
      let s0 : Client = record {
        connection = cc.connection;
        table = [];
        seq = 1;
        world = new_user msg;
      } in
      let f = search s0 (hash msg.response_name) small (omega arith) in
      let (s, e1, snt) =
        call_method-Sent k (hash (msg.full_name method_register)) (hash msg.response_name) content
          (user_call msg) s0 o f in
      record {
        client_connection = cc;
        before = s0;
        client = s;
        id = f.id;
        small = f.small;
        ends = ground (arith, e, y, w, e1);
        fresh = refl;
        table = refl;
        open' = o;
        empty = em;
        sent = snt;
      }

module _ (msg : Messages) (k : Codec) (meanwhile written : Connection → Connection) (sent : Bool)
    (hash : Bytes → ℕ) (cut cut' : Bytes → List Bytes) where
  -- The client's one request, against a server that knows the method, ends as `Register` says: the game is what
  -- `Register` makes of it, `done` is set, and the response message holds the answer of `Register`.
  pub meet-Registered :
      (endpoints : List Bool) (handlers : HandlerTable) (game : Game) (c : Connection)
      → IsCodec k
      → IsMessages msg
      → Fits msg k (hash (msg.full_name method_register))
      → ((d : Connection) → meanwhile d ≡ d)
      → ((b : Bytes) → concat (cut b) ≡ b)
      → ((b : Bytes) → concat (cut' b) ≡ b)
      → try_each endpoints ≡ true
      → hash msg.response_name < 18446744073709551616
      → find_method (hash (msg.full_name method_register)) handlers ≡ some method_register
      → IsOpen c
      → stream c ≡ []
      → Registered msg game (register (request msg) game) (
          meet msg k meanwhile written
            (timer_of sent meanwhile)
            hash
            cut
            cut'
            endpoints
            handlers
            game
            c)
  unfolding meet find client_handle
  meet-Registered endpoints handlers game c codec msgs fits q cuts cuts' y small f o ec =
      let (content, w, r) = msgs.requests in
      let a = do_request-Asked msg k meanwhile sent hash endpoints content y small w in
      let asked = request_meta (hash (msg.full_name method_register)) a.id content in
      let small' = register-IsUint32 (request msg) game in
      let (answer, wr, rr) = msgs.responses (register (request msg) game).0 small' in
      let (c1, e2, took) =
        serve-register msg k meanwhile handlers asked (request msg) answer game c q o f r wr in
      let s = a.client in
      let s2 = record s { connection = written s.connection } in
      let (s', e3, rep) =
        answered-Replied (response_parses msg) a.id (response_meta asked answer) (user_call msg)
          a.before s2 refl a.sent.table a.sent.world (ground (arith, rr)) in
      let there =
        one_message k (serve msg k meanwhile handlers) asked (cut (stream s.connection)) (game, c)
          ((register (request msg) game).1, c1) codec (fits.request content a.id w a.small)
          (only_message k asked cut a.before.connection s.connection cuts a.empty a.sent.took) e2 in
      let service = rpc_service_clients msg game in
      let back =
        one_message k (handle k meanwhile service none (response_parses msg))
          (response_meta asked answer) (cut' (stream c1)) s2 s' codec
          (fits.response (register (request msg) game).0 content answer a.id small' wr a.small)
          (only_message k (response_meta asked answer) cut' c c1 cuts' ec took)
          (client_handle-answered k meanwhile written service handlers (response_parses msg) cut
            cut' (response_meta asked answer) s2 (true, s') e3) in
      record {
        client = s';
        answer = answer;
        ends = ground (arith, a.ends, there, back);
        done = ground (arith, rep.ran, a.fresh);
        filled = rep.filled ∙ ap (λ w. w.filled ++ (0, answer) ∷ []) a.fresh;
        reads = rr;
      }
