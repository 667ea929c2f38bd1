-- ===== src/Methods/Answer.antt =====
-- ProtobufConnection.cpp, `HandleService` and `CallServiceMethodDone`: what goes out on the connection.
use tt3d.Base.{ℕ, ◌≡◌, refl, arith, true, false, none, some}
use tt3d.Wire.{Bytes, Codec, MetaData, encode_message}
use tt3d.Raw.{Connection}
use tt3d.Raw.Stream.{item_bytes}
use tt3d.Raw.Open.{IsOpen, Took, Took-trans, Took-nil, push_data-Took, schedule_write-Took}
use tt3d.Methods.{
  Service, HandlerTable, find_method, response_meta, call_service_method_done, handle_service,
  handle,
}

-- Without a table every message is left to the response handlers.
pub handle-none :
    (k : Codec) (meanwhile : Connection → Connection) (s : Service) (m : MetaData) (c : Connection)
    → handle k meanwhile s none m c ≡ some (false, c)
unfolding handle
handle-none k meanwhile s m c = refl

module _ (k : Codec) (meanwhile : Connection → Connection) where
  -- The response is pushed onto an open connection and its write is started.
  pub call_service_method_done-Took :
      (request : MetaData) (content : Bytes) (c : Connection)
      → ((d : Connection) → meanwhile d ≡ d)
      → IsOpen c
      → (c' : Connection) × (call_service_method_done k meanwhile request (some content) c
          ≡ some c')
        × Took (item_bytes (encode_message k (response_meta request content))) c c'
  unfolding call_service_method_done
  call_service_method_done-Took request content c q o =
      let (c1, e1, t1) = push_data-Took (encode_message k (response_meta request content)) c o in
      let (c2, e2, t2) = schedule_write-Took c1 t1.kept in
      (c2, ground (arith, e1, q c1, e2), Took-nil (Took-trans t1 t2))

  -- On an open connection, which other threads leave alone in between, a request for a registered method, with bytes
  -- that parse, is taken as one, and then the response that the method gives, if it is one that serializes, has been
  -- put behind what the connection still had to write, as a response to this request.
  pub handle-Took :
      (s : Service) (table : HandlerTable) (request : MetaData) (method : ℕ) (content : Bytes)
      (c : Connection)
      → ((d : Connection) → meanwhile d ≡ d)
      → IsOpen c
      → find_method request.identify table ≡ some method
      → s.parses method request.content ≡ true
      → s.answer method request.content ≡ some content
      → (c' : Connection) × (handle k meanwhile s (some table) request c ≡ some (true, c'))
        × Took (item_bytes (encode_message k (response_meta request content))) c c'
  unfolding handle handle_service
  handle-Took s table request method content c q o f p a =
      let (c', e, t) = call_service_method_done-Took request content c q o in
      (c', ground (arith, f, p, a, e), t)
