-- ===== src/Programs/Serving.antt =====
-- src/server/main.cpp and RpcServiceClients.hpp: the server's start, and a request for `Register` on one of its
-- connections.
use tt3d.Base.{ℕ, ◌≡◌, refl, arith, true, [], none, some, All, inl, inr}
use tt3d.Buffers.Consume.{contents}
use tt3d.Wire.{Bytes, Codec, MetaData, encode_message}
use tt3d.Raw.{Connection, attach, new_connection}
use tt3d.Raw.Stream.{stream, item_bytes}
use tt3d.Raw.Open.{IsOpen, Took}
use tt3d.Methods.{HandlerTable, find_method, response_meta}
use tt3d.Methods.Answer.{handle-Took}
use tt3d.Methods.Register.{IsNew, register_service-Holds}
use tt3d.Clients.{Game, ClientRequest, register}
use tt3d.Acceptors.{Listener}
use tt3d.Acceptors.Listening.{IsListening, first_listen-IsListening}
use tt3d.Programs.{
  Messages, call_service, request_parses, rpc_service_clients, game_after, serve, server_main,
  client_methods, method_register, no_game,
}

-- A connection that was just attached takes what is pushed, and has nothing to write.
pub attached : (c : Connection) × (attach new_connection ≡ some c) × IsOpen c × (stream c ≡ [])
unfolding attach new_connection contents
attached = (
  _,
  refl,
  record {
    open' = refl;
    impl = refl;
    unlocked = refl;
    socket = refl;
    in_order = record {
      index = omega arith;
      queue_0 = record { within = omega arith };
      queue_1 = record { within = omega arith };
      drained = λ h. refl;
    };
  },
  refl,
)

module _ (msg : Messages) where
  -- With different fingerprints and an address that can be listened to, the server's `main` gets to its loop: the
  -- server listens, and each method is found under its fingerprint.
  pub server_main_ends :
      (hash : Bytes → ℕ)
      → IsNew hash (rpc_service_clients msg no_game) client_methods []
      → (handlers : HandlerTable) × (l : Listener) × (server_main msg hash true
          ≡ some (handlers, l))
        × IsListening l
        × All (λ m. find_method (hash (msg.full_name m)) handlers ≡ some m) client_methods
  unfolding server_main rpc_service_clients
  server_main_ends hash n =
      let (l, e, li) = first_listen-IsListening 2 4 0 (omega arith) (omega arith) in
      elim (register_service-Holds hash (rpc_service_clients msg no_game) none) [
        | inl (m, (handlers, r, h)) ↦ (handlers, l, ground (arith, r, e), li, h.methods)
        | inr (m, r) ↦ absurd (m n)
      ]

  -- A request for `Register` is answered with what `Register` answers, and the game becomes what it makes of it.
  pub serve-register :
      (k : Codec) (meanwhile : Connection → Connection) (handlers : HandlerTable) (meta : MetaData)
      (request : ClientRequest) (answer : Bytes) (game : Game) (c : Connection)
      → ((d : Connection) → meanwhile d ≡ d)
      → IsOpen c
      → find_method meta.identify handlers ≡ some method_register
      → msg.read_request meta.content ≡ some request
      → msg.write_response (register request game).0 ≡ some answer
      → (c' : Connection) × (serve msg k meanwhile handlers meta (game, c)
          ≡ some (true, ((register request game).1, c')))
        × Took (item_bytes (encode_message k (response_meta meta answer))) c c'
  unfolding serve rpc_service_clients game_after call_service request_parses
  serve-register k meanwhile handlers meta request answer game c q o f p a =
      let (c', e, t) =
        handle-Took k meanwhile (rpc_service_clients msg game) handlers meta method_register answer
          c q o f (ground (arith, p)) (ground (arith, p, a)) in
      (c', ground (arith, e, f, p), t)
