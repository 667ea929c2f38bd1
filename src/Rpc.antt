-- ===== src/Rpc.antt =====
-- The side of a call that makes it: src/core/network/RawProtobufConnection.hpp and .cpp (`CallMethod`,
-- `Handle`, `ReleaseResponseTable`, `CallMethodCallback`), `ProtobufConnection::CallMethod`, Closure.hpp, and
-- the class `RpcController` of Connection.hpp.
-- A call is a number; its closure and its response message go by that number. `none` is a fault of the
-- connection, or the end of the fuel of the search for a free identify.
pub mod Fresh
pub mod Times
pub mod Sending
pub mod Reply
pub mod RoundTrip
pub mod Exchange
pub mod Matching
pub mod Batch
pub mod Failing
pub mod Life
pub mod Once
pub mod Hearing
pub mod Progress
pub mod Ended
pub mod Calling
pub mod Tests
use tt3d.Base.{
  ℕ, zero, suc, ◌+◌, ◌%◌, Bool, true, false, not, ◌&&◌, ◌||◌, List, [], ◌∷◌, ◌++◌, Option, none,
  some, length, ◌==◌, if◌then◌else◌, ◌>>=◌,
}
use tt3d.Base.Members.{find}
use tt3d.Threads.{Notifier, new_notifier}
use tt3d.Threads
use tt3d.Wire.{Bytes, Codec, MetaData, MetaType, encode_message}
use tt3d.Raw.{Connection, lock_shared, unlock_shared, internal_push_data, raw_schedule_write}
use tt3d.Methods.{Service, HandlerTable}
use tt3d.Methods

-- The texts given to `SetFailed`.
pub data Reason : Type 0 where
  abort parse_error append_error disconnected : Reason

-- `RpcController`
pub record RpcController : Type 0 where
  pub failed : Option Reason
  pub notifier : Notifier

abbrev pub new_controller : RpcController
new_controller = record { failed = none; notifier = new_notifier 1 }

abbrev pub reset : RpcController → RpcController
reset c = new_controller

abbrev pub set_failed : Reason → RpcController → RpcController
set_failed r c = record c { failed = some r }

pub failed : RpcController → Bool
failed c = elim c.failed [ none ↦ false | some r ↦ true ]

abbrev pub notify : RpcController → RpcController
notify c = let n = c.notifier in record c { notifier = Threads.notify n }

pub wait : Bool → RpcController → Bool
wait timed_wait c = Threads.wait timed_wait c.notifier

-- A call: its controller, if there is one of this class, and whether a closure was given.
pub record Call : Type 0 where
  pub number : ℕ
  pub controller : Option ℕ
  pub done : Bool

-- What calls change outside of the connection: the controllers, the closures that were run, and the
-- responses that were filled in, oldest first.
pub record World : Type 0 where
  pub controllers : ℕ → RpcController
  pub ran : List ℕ
  pub filled : List (ℕ × Bytes)

pub on_controller : Option ℕ → (RpcController → RpcController) → World → World
on_controller none f w = w
on_controller (some n) f w = record w {
  controllers = λ i. if i == n then f (w.controllers i) else w.controllers i;
}

-- `done->Run()`, also by the destructor of `ScopedClosure`.
pub run_done : Call → World → World
run_done call w = if call.done then record w { ran = w.ran ++ call.number ∷ [] } else w

-- The end of a call that has failed.
pub finish : Reason → Call → World → World
unfolding on_controller run_done
finish r call w = run_done call (on_controller call.controller (λ c. notify (set_failed r c)) w)

-- `CallMethodCallback`, with null for the decoder where the connection goes away. `parses` says whether
-- the response message of a call takes the bytes.
pub call_method_callback : (ℕ → Bytes → Bool) → Option MetaData → Call → World → World
unfolding finish on_controller run_done
call_method_callback parses none call w = finish abort call w
call_method_callback parses (some meta) call w =
    let w1 = record w { filled = w.filled ++ (call.number, meta.content) ∷ [] } in
    if parses call.number meta.content
    then run_done call (on_controller call.controller notify w1)
    else finish parse_error call w

-- The response handlers, by the identify that a response brings.
abbrev pub Table : Type 0
Table = List (ℕ × Call)

abbrev pub keys : Table → List ℕ
keys [] = []
keys ((id, call) ∷ t) = id ∷ keys t

pub lookup : ℕ → Table → Option Call
lookup id [] = none
lookup id ((key, call) ∷ t) = if id == key then some call else lookup id t

pub remove : ℕ → Table → Table
remove id [] = []
remove id ((key, call) ∷ t) = let rest = remove id t in if id == key then t else (key, call) ∷ rest

-- The loop of `CallMethod` that looks for an identify that is not waited for, with the counter `seq` that all
-- connections share.
pub fresh_identify : ℕ → ℕ → ℕ → List ℕ → Option (ℕ × ℕ)
fresh_identify zero seq id ids = none
fresh_identify (suc fuel) seq id ids =
    let rest = fresh_identify fuel (seq + 1) ((id + (seq + 1)) % 18446744073709551616) ids in
    if find id ids then rest else some (seq, id)

pub record Client : Type 0 where
  pub connection : Connection
  pub table : Table
  pub seq : ℕ
  pub world : World

abbrev pub request_meta : ℕ → ℕ → Bytes → MetaData
request_meta identify response_identify content = record {
  type = MetaType.request;
  identify = identify;
  response_identify = some response_identify;
  content = content;
}

module _ (k : Codec) where
  -- What is sent once the handler is in the table. `RawConnection::PushData` and `ScheduleWrite` always return
  -- true, so only a request that does not serialize fails.
  send : ℕ → ℕ → Option Bytes → Call → Client → Option Client
  unfolding remove
  send identify id none call s =
      some (record s { table = remove id s.table; world = finish append_error call s.world })
  send identify id (some content) call s =
      raw_schedule_write
        (internal_push_data (encode_message k (request_meta identify id content)) s.connection)
      >>= λ c. some (record s { connection = c })

  -- `RawProtobufConnection::CallMethod`, with the hashes of the method's and of the response type's names.
  pub raw_call_method : ℕ → ℕ → Option Bytes → Call → Client → Option Client
  unfolding send fresh_identify
  raw_call_method identify response_hash content call s = do
    (seq, id) ← fresh_identify (length s.table + 1) s.seq response_hash (keys s.table)
    send identify id content call (record s { table = (id, call) ∷ s.table; seq = seq })

  -- `ProtobufConnection::CallMethod`
  pub call_method : ℕ → ℕ → Option Bytes → Call → Client → Option Client
  unfolding raw_call_method
  call_method identify response_hash content call s = do
    c ← lock_shared s.connection
    let s1 = record s { connection = c }
    s2 ←
        if c.status.closing || not c.impl
        then some (record s1 { world = finish disconnected call s.world })
        else raw_call_method identify response_hash content call s1
    c2 ← unlock_shared s2.connection
    some (record s2 { connection = c2 })

-- A message for no method: the handler that waits for it, if any, is taken out of the table and called.
pub answered : (ℕ → Bytes → Bool) → MetaData → Option Call → Client → Bool × Client
unfolding remove call_method_callback
answered parses meta none s = (false, s)
answered parses meta (some call) s = (
  true,
  record s {
    table = remove meta.identify s.table;
    world = call_method_callback parses (some meta) call s.world;
  },
)

-- `RawProtobufConnection::Handle`, with the service connection's service and table of handlers.
pub handle :
    Codec
    → (Connection → Connection)
    → Service
    → Option HandlerTable
    → (ℕ → Bytes → Bool)
    → MetaData
    → Client
    → Option (Bool × Client)
unfolding lookup answered
handle k meanwhile service handlers parses meta s =
    Methods.handle k meanwhile service handlers meta s.connection >>= λ r.
    if r.0
    then some (true, record s { connection = r.1 })
    else some (answered parses meta (lookup meta.identify s.table) (record s { connection = r.1 }))

-- `ReleaseResponseTable`, by the destructor. The order of a `hash_map` is not specified: it is the list's.
pub abort_all : (ℕ → Bytes → Bool) → Table → World → World
abort_all parses [] w = w
abort_all parses ((id, call) ∷ t) w = abort_all parses t (call_method_callback parses none call w)

pub release_response_table : (ℕ → Bytes → Bool) → Client → Client
unfolding abort_all
release_response_table parses s = record s { table = []; world = abort_all parses s.table s.world }
