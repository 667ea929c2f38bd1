-- ===== src/Programs.antt =====
-- The two programs: `main` of src/server/main.cpp and `User::DoRequest` of src/client/ClientMain.cpp, with the service
-- `RpcServiceClients` of src/server/network/RpcServiceClients.hpp as the server's calls reach it.
-- `none` is the end of the process: an exception, a failed `CHECK`, or undefined behaviour.
pub mod Serving
pub mod Meeting
pub mod Ending
mod Tests
use tt3d.Base.{ℕ, Bool, true, false, List, [], ◌∷◌, Option, none, some, ◌==◌, if◌then◌else◌, ◌>>=◌}
use tt3d.Base.Members.{find}
use tt3d.Timer.{Timers}
use tt3d.Wire.{Bytes, Codec, MetaData, decode_reads, new_decoder}
use tt3d.Wire.World.{or_fault}
use tt3d.Raw.{Connection}
use tt3d.Raw.Stream.{stream}
use tt3d.Methods.{Service, HandlerTable, find_method, register_service}
use tt3d.Methods
use tt3d.Rpc.{Call, World, Client, new_controller, call_method, handle}
use tt3d.Rpc.RoundTrip.{after}
use tt3d.Coordinate.{value}
use tt3d.Clients.{
  Game, ClientRequest, ClientResponse, ViewportRequest, ViewportResponse, register,
  register_viewport,
}
use tt3d.Acceptors.{Listener, new_listener, listen}
use tt3d.ClientConnection.{ClientConnection, new_client_connection, connect}

-- What `protoc` makes of proto/general.proto: the messages to bytes and back, the names, and the methods that
-- `RpcServiceClients` leaves as they are generated.
pub record Messages : Type 0 where
  pub write_request : ClientRequest → Option Bytes
  pub read_request : Bytes → Option ClientRequest
  pub write_response : ClientResponse → Option Bytes
  pub read_response : Bytes → Option ClientResponse
  pub read_viewport_request : Bytes → Option ViewportRequest
  pub write_viewport_response : ViewportResponse → Option Bytes
  pub other_parses : ℕ → Bytes → Bool
  pub other_answer : ℕ → Bytes → Option Bytes
  pub full_name : ℕ → Bytes
  pub response_name : Bytes

-- The methods of the service `clients`, in their order in proto/general.proto.
abbrev pub method_register : ℕ
method_register = 0

abbrev pub method_register_viewport : ℕ
method_register_viewport = 2

abbrev pub client_methods : List ℕ
client_methods = 0 ∷ 1 ∷ 2 ∷ 3 ∷ 4 ∷ []

-- The game of a server that has just started.
abbrev pub no_game : Game
no_game = record { clients = []; allocated = 0 }

abbrev pub given : {A : Type 0} → Option A → Bool
given none = false
given (some a) = true

module _ (msg : Messages) where
  -- A call that reaches `RpcServiceClients`: the bytes of its response, and the game after it.
  pub call_service : ℕ → Bytes → Game → Option Bytes × Game
  call_service method content game =
      if method == method_register
      then elim (msg.read_request content) [
        | none ↦ (none, game)
        | some request ↦
            let (response, game') = register request game in (msg.write_response response, game')
      ]
      else if method == method_register_viewport
      then elim (msg.read_viewport_request content) [
        | none ↦ (none, game)
        | some request ↦ elim (register_viewport request game) [
          | value answer ↦ (msg.write_viewport_response answer.0, answer.1)
          | other ↦ (none, game)
        ]
      ]
      else (msg.other_answer method content, game)

  -- Whether the request of a method parses.
  pub request_parses : ℕ → Bytes → Bool
  request_parses method content =
      if method == method_register
      then given (msg.read_request content)
      else if method == method_register_viewport
      then given (msg.read_viewport_request content)
      else msg.other_parses method content

  -- `RpcServiceClients`, as it answers while the game is `game`.
  unfoldable pub rpc_service_clients : Game → Service
  unfolding call_service request_parses
  rpc_service_clients game = record {
    methods = client_methods;
    full_name = msg.full_name;
    parses = request_parses;
    answer = λ method content. (call_service method content game).0;
  }

  -- The game after a message was handled.
  pub game_after : HandlerTable → MetaData → Game → Game
  unfolding find_method call_service request_parses
  game_after handlers meta game = elim (find_method meta.identify handlers) [
    | none ↦ game
    | some method ↦
        if request_parses method meta.content
        then (call_service method meta.content game).1
        else game
  ]

  -- A message that a connection of the server reads.
  unfoldable pub serve :
      Codec
      → (Connection → Connection)
      → HandlerTable
      → MetaData
      → Game × Connection
      → Option (Bool × (Game × Connection))
  unfolding rpc_service_clients game_after
  serve k meanwhile handlers meta (game, c) =
      Methods.handle k meanwhile (rpc_service_clients game) (some handlers) meta c >>= λ r.
      some (r.0, (game_after handlers meta game, r.1))

  -- `main` of the server up to its loop: what its connections look methods up in, and the server. `opens` says
  -- whether the address can be listened to.
  unfoldable pub server_main : (Bytes → ℕ) → Bool → Option (HandlerTable × Listener)
  server_main hash opens = do
    handlers ← register_service hash (rpc_service_clients no_game) none
    server ← listen opens 0 (new_listener 2 4)
    some (handlers, server)

  -- The request of `DoRequest`, and its call, with the closure that runs `ClientCallDone`.
  abbrev pub request : ClientRequest
  request = record { login = 116 ∷ 101 ∷ 115 ∷ 116 ∷ []; password = none }

  abbrev pub user_call : Call
  user_call = record { number = 0; controller = some 0; done = true }

  -- What `User` starts with.
  abbrev pub new_user : World
  new_user = record { controllers = λ n. new_controller; ran = []; filled = [] }

  -- `DoRequest`, with the timers, the hash, and the endpoints that the resolver yields.
  unfoldable pub do_request :
      Codec
      → Timers (Option Connection)
      → (Bytes → ℕ)
      → List Bool
      → Option (ClientConnection × Client)
  do_request k t hash endpoints = do
    (connected, client_connection) ← connect t (some endpoints) new_client_connection
    s ←
        call_method k (hash (msg.full_name method_register)) (hash msg.response_name)
          (msg.write_request request) user_call
          (record {
            connection = client_connection.connection;
            table = [];
            seq = 1;
            world = new_user;
          })
    some (client_connection, s)

  -- Whether a response message takes the bytes.
  abbrev pub response_parses : ℕ → Bytes → Bool
  response_parses number content = given (msg.read_response content)

-- The flag `done`, which `ClientCallDone` sets.
abbrev pub is_done : World → Bool
is_done w = find 0 w.ran

module _ (msg : Messages) (k : Codec) (meanwhile written : Connection → Connection)
    (t : Timers (Option Connection)) (hash : Bytes → ℕ) (cut cut' : Bytes → List Bytes) where
  -- The client's request against a server with the table `handlers`, the game and a connection that it has for this client: the
  -- server reads the pieces of `cut`, and then the client, to whose connection `written` has happened,
  -- those of `cut'`.
  unfoldable pub meet : List Bool → HandlerTable → Game → Connection → Option (Game × Client)
  meet endpoints handlers game c = do
    (client_connection, s) ← do_request msg k t hash endpoints
    (game', c') ← after (
        decode_reads k (or_fault (serve msg k meanwhile handlers)) new_decoder
          (cut (stream s.connection)) (some (game, c)))
    s' ← after (
        decode_reads k
          (or_fault (handle k meanwhile (rpc_service_clients msg game) none (response_parses msg)))
          new_decoder (cut' (stream c')) (some (record s { connection = written s.connection })))
    some (game', s')
