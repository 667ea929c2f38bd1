-- ===== src/Programs/Ending.antt =====
-- src/client/ClientMain.cpp: how the client's program ends, from the start of both programs.
use tt3d.Base.{
  ℕ, ◌+◌, ◌<◌, ◌≡◌, ◌∙◌, refl, ap, subst, arith, Bool, true, false, List, [], ◌∷◌, Option, some,
  Bool-cases, inl, inr, length,
}
use tt3d.Base.Members.{find}
use tt3d.Wire.{Bytes, Codec, IsCodec}
use tt3d.Wire.Feed.{concat}
use tt3d.Raw.{Connection, span}
use tt3d.Methods.{HandlerTable}
use tt3d.Methods.Register.{IsNew}
use tt3d.Rpc.{Client}
use tt3d.Clients.{Game, ClientResponse, register, get, int_bits}
use tt3d.Clients.Registry.{IsGame, taken, new_ptr, register-new}
use tt3d.Acceptors.{Listener}
use tt3d.ClientConnection.{ClientConnection, new_client_connection, try_each, timer_of}
use tt3d.ClientConnection.Connect.{Ends, connect-Ends, new_client_connection-IsReady}
use tt3d.Programs.{
  Messages, rpc_service_clients, server_main, client_methods, method_register, request, user_call,
  new_user, do_request, response_parses, is_done, meet, no_game,
}
use tt3d.Programs.Serving.{attached, server_main_ends}
use tt3d.Programs.Meeting.{IsMessages, Fits, meet-Registered, do_request-Asked}
use tt3d.Rpc.{Reason, World, abort, disconnected, release_response_table}
use tt3d.Rpc.Failing.{Failed, call_method-Failed, release-Failed}

-- The client is registered: the game has it under the id that its response message holds, with no error.
pub record Joined (msg : Messages) (game : Game) (o : Option (Game × Client)) : Type 0 where
  pub game' : Game
  pub client : Client
  pub answer : Bytes
  pub response : ClientResponse
  pub ends : o ≡ some (game', client)
  pub done : is_done client.world ≡ true
  pub filled : client.world.filled ≡ (0, answer) ∷ []
  pub reads : msg.read_response answer ≡ some response
  pub code : response.code ≡ 0
  pub id : response.client_id ≡ some (length game.clients + 1)
  pub there : get (length game.clients + 1) game'.clients ≡ some (new_ptr (request msg) game)

module _ (msg : Messages) (k : Codec) (meanwhile written : Connection → Connection) (sent : Bool)
    (hash : Bytes → ℕ) (cut cut' : Bytes → List Bytes) where
  -- The two programs together: with methods of different fingerprints and an address that can be listened
  -- to, the server's `main` gets to its loop, and a connection that it then spans serves the client. If an
  -- endpoint accepts, the game is in order, no client has the login, and there is an `int` for its number,
  -- the client's `done` is set, its response has code 0 and the id under which the game has the new client.
  -- The generated code reads what it wrote of this request and of responses whose numbers are `uint32`, the
  -- line format takes these messages, the hash of the response's name has 64 bits, other threads leave the server's connection alone while it answers, and the bytes are
  -- cut into reads in any way.
  pub programs-Joined :
      (endpoints : List Bool) (game : Game)
      → IsCodec k
      → IsMessages msg
      → Fits msg k (hash (msg.full_name method_register))
      → ((d : Connection) → meanwhile d ≡ d)
      → ((b : Bytes) → concat (cut b) ≡ b)
      → ((b : Bytes) → concat (cut' b) ≡ b)
      → IsNew hash (rpc_service_clients msg no_game) client_methods []
      → hash msg.response_name < 18446744073709551616
      → try_each endpoints ≡ true
      → IsGame game
      → taken (request msg).login game ≡ false
      → length game.clients + 1 < int_bits
      → (handlers : HandlerTable) × (l : Listener) × (c : Connection) × (server_main msg hash true
          ≡ some (handlers, l))
        × (span ≡ some c)
        × Joined msg game (
            meet msg k meanwhile written
              (timer_of sent meanwhile)
              hash
              cut
              cut'
              endpoints
              handlers
              game
              c)
  unfolding span
  programs-Joined endpoints game codec msgs fits q cuts cuts' fresh small y v free room =
      let (handlers, l, e, li, found) = server_main_ends msg hash fresh in
      let (c, ec, o, em) = attached in
      let r =
        meet-Registered msg k meanwhile written sent hash cut cut' endpoints handlers game c codec
          msgs fits q cuts cuts' y small found.0 o em in
      let (code, id, there) = register-new (request msg) game v free room in
      (
        handlers,
        l,
        c,
        e,
        ec,
        record {
          game' = (register (request msg) game).1;
          client = r.client;
          answer = r.answer;
          response = (register (request msg) game).0;
          ends = r.ends;
          done = r.done;
          filled = r.filled;
          reads = r.reads;
          code = code;
          id = id;
          there = there;
        },
      )

-- The call failed for this reason, and its closure was run.
pub record Ended (r : Reason) (w : World) : Type 0 where
  pub done : is_done w ≡ true
  pub failed : (w.controllers 0).failed ≡ some r
  pub filled : w.filled ≡ []

Failed-Ended :
    (msg : Messages) (r : Reason) (w w' : World)
    → w ≡ new_user msg
    → Failed r (user_call msg) w w'
    → Ended r w'
unfolding find
Failed-Ended msg r w w' e f = record {
  done = ground (arith, f.ran, e);
  failed = f.controllers 0 refl;
  filled = f.filled ∙ ap (λ v. v.filled) e;
}

-- Without a connection the call has ended; with one it waits, and ends when the connection goes away.
abbrev pub Waits : Messages → Bool → Client → Type 0
Waits msg false s = Ended disconnected s.world
Waits msg true s =
    (is_done s.world ≡ false) × Ended abort (release_response_table (response_parses msg) s).world

module _ (msg : Messages) (k : Codec) (meanwhile : Connection → Connection) (sent : Bool)
    (hash : Bytes → ℕ) where
  -- The client's loop has an end without an answer, too. If no endpoint accepts, `DoRequest` sets `done`
  -- itself, and the controller says that there was no connection. If one does, `done` is not yet set, and
  -- it is when the destructor of the connection's half releases the table, where the controller says that
  -- the call was aborted. In neither case is the response filled in. The request can be written, and the
  -- hash of the response's name has 64 bits.
  pub do_request-Waits :
      (endpoints : List Bool) (content : Bytes)
      → hash msg.response_name < 18446744073709551616
      → msg.write_request (request msg) ≡ some content
      → (client_connection : ClientConnection) × (s : Client) × (do_request msg k
            (timer_of sent meanwhile)
            hash
            endpoints
          ≡ some (client_connection, s))
        × Waits msg (try_each endpoints) s
  unfolding do_request find
  do_request-Waits endpoints content small wr = elim (Bool-cases (try_each endpoints)) [
    | inr y ↦
        let (cc, e, ends) =
          connect-Ends sent meanwhile endpoints new_client_connection
            new_client_connection-IsReady in
        let r = subst (λ b. Ends b new_client_connection cc) y ends in
        let (s, e1, t, f) =
          call_method-Failed k (hash (msg.full_name method_register)) (hash msg.response_name)
            (msg.write_request (request msg)) (user_call msg)
            (record { connection = cc.connection; table = []; seq = 1; world = new_user msg })
            r.unlocked (inr r.no_impl) in
        rw y (
          cc,
          s,
          ground (arith, e, y, e1),
          Failed-Ended msg disconnected (new_user msg) s.world refl f,
        )
    | inl y ↦
        let a = do_request-Asked msg k meanwhile sent hash endpoints content y small wr in
        let w = a.sent.world ∙ a.fresh in
        rw y (
          a.client_connection,
          a.client,
          a.ends,
          (
            ground (arith, w),
            Failed-Ended msg abort a.client.world
                (release_response_table (response_parses msg) a.client).world w
                (release-Failed (response_parses msg) a.id (user_call msg) a.client
                  (a.sent.table ∙ ap (λ t. (a.id, user_call msg) ∷ t) a.table)),
          ),
        )
  ]
