-- ===== src/Methods.antt =====
-- The side of a call that serves it: src/core/network/ProtobufConnection.hpp and .cpp
-- (`RegisterService`, `Handle`, `HandleService`, `CallServiceMethodDone`).
-- A method is a number. `none` is a failed `CHECK`, a fault of the connection, or memory freed twice.
pub mod Register
pub mod Answer
pub mod Serving
pub mod Reading
pub mod Late
pub mod Sample
mod Tests
use tt3d.Base.{
  ℕ, ◌+◌, ◌-◌, ◌||◌, Bool, true, false, not, ◌&&◌, List, [], ◌∷◌, Option, none, some, ◌==◌,
  if◌then◌else◌, ◌>>=◌,
}
use tt3d.Wire.{
  Bytes, Codec, MetaData, MetaType, encode_message, Decoder, Outcome, goes_on, closes, throws,
  spins, decode_bytes,
}
use tt3d.Wire.World.{or_fault}
use tt3d.Raw.{Connection, push_data, schedule_write, step, read_done}

-- A `google::protobuf::Service`: its methods and their full names, whether a request's bytes parse, and
-- the bytes of the response that the method gives; `none` if it does not serialize.
pub record Service : Type 0 where
  pub methods : List ℕ
  pub full_name : ℕ → Bytes
  pub parses : ℕ → Bytes → Bool
  pub answer : ℕ → Bytes → Option Bytes

-- `HandlerTable`: from a fingerprint to the method that `HandleService` is bound to.
abbrev pub HandlerTable : Type 0
HandlerTable = List (ℕ × ℕ)

unfoldable pub find_method : ℕ → HandlerTable → Option ℕ
find_method id [] = none
find_method id ((key, method) ∷ rest) = if id == key then some method else find_method id rest

-- `hash8` of src/core/lookup8.c is a parameter.
module _ (hash : Bytes → ℕ) (s : Service) where
  -- The loop of `RegisterService`; the fingerprint of another method fails the `CHECK`.
  register_methods : List ℕ → HandlerTable → Option HandlerTable
  unfolding find_method
  register_methods [] table = some table
  register_methods (method ∷ rest) table =
      let key = hash (s.full_name method) in
      elim (find_method key table) [
        | some other ↦ none
        | none ↦ register_methods rest ((key, method) ∷ table)
      ]

  -- `handler_table_` is null until the first service is registered. The code returns no value of its `bool`, which no
  -- caller looks at; what is modelled is the table.
  pub register_service : Option HandlerTable → Option HandlerTable
  unfolding register_methods
  register_service none = register_methods s.methods []
  register_service (some table) = register_methods s.methods table

-- The response that `CallServiceMethodDone` sends: it carries the request's response identify.
abbrev pub response_meta : MetaData → Bytes → MetaData
response_meta request content = record {
  type = MetaType.response;
  identify = elim request.response_identify [ none ↦ 0 | some id ↦ id ];
  response_identify = none;
  content = content;
}

-- Who owns the two strings that `EncodeMessage` made with `new`: nobody if they are null.
pub data Strings : Type 0 where
  null mine queued freed : Strings

abbrev pub made : Option (Bytes × Bytes) → Strings
made none = null
made (some pair) = mine

-- The queue of the buffers takes them.
abbrev pub hand_over : Strings → Strings
hand_over null = null
hand_over mine = queued
hand_over queued = queued
hand_over freed = freed

-- Both `delete`s. To free strings twice, or those that the queue owns, is a fault.
abbrev pub delete_strings : Strings → Option Strings
delete_strings null = some null
delete_strings mine = some freed
delete_strings queued = none
delete_strings freed = none

-- `CallServiceMethodDone`; `meanwhile` is what other threads do between `PushData` and `ScheduleWrite`.
-- The strings are deleted after either call that returns false.
pub call_service_method_done :
    Codec → (Connection → Connection) → MetaData → Option Bytes → Connection → Option Connection
call_service_method_done k meanwhile request none c = none
call_service_method_done k meanwhile request (some content) c = do
  let data' = encode_message k (response_meta request content)
  (pushed, c1) ← push_data data' c
  strings ← if pushed then some (hand_over (made data')) else delete_strings (made data')
  (scheduled, c2) ← schedule_write (meanwhile c1)
  left ← if scheduled then some strings else delete_strings strings
  some c2

module _ (k : Codec) (meanwhile : Connection → Connection) (s : Service) where
  -- `HandleService`: a request that does not parse is dropped. The service runs the closure `done`
  -- before `CallMethod` returns.
  pub handle_service : ℕ → MetaData → Connection → Option Connection
  handle_service method meta c =
      if not (s.parses method meta.content)
      then some c
      else call_service_method_done k meanwhile meta (s.answer method meta.content) c

  -- `ProtobufConnection::Handle`: whether the message was a request of this table.
  unfoldable pub handle : Option HandlerTable → MetaData → Connection → Option (Bool × Connection)
  unfolding find_method handle_service
  handle none meta c = some (false, c)
  handle (some table) meta c = elim (find_method meta.identify table) [
    | none ↦ some (false, c)
    | some method ↦ handle_service method meta c >>= λ c1. some (true, c1)
  ]

-- The result of `Decode`, and the connection. An exception of the decoder leaves `HandleRead` and ends the process, and
-- so does a fault of a handler.
abbrev pub verdict : Outcome (Option Connection) → Option (Bool × Connection)
verdict (goes_on d (some c')) = some (true, c')
verdict (closes (some c')) = some (false, c')
verdict other = none

abbrev pub result_or : Connection → Option (Bool × Connection) → Bool × Connection
result_or c none = (false, c)
result_or c (some result) = result

module _ (k : Codec) (meanwhile : Connection → Connection) (s : Service)
    (table : Option HandlerTable) where
  -- `Decode` of a read, with `ProtobufConnection::Handle` for its messages.
  unfoldable pub decode_service : Decoder → Bytes → Connection → Option (Bool × Connection)
  decode_service d bytes c =
      verdict (decode_bytes k (or_fault (handle k meanwhile s table)) d bytes (some c))

  -- The same where there is a result, for `step`.
  abbrev pub decoded_service : Decoder → Bytes → Connection → Bool × Connection
  decoded_service d bytes c = result_or c (decode_service d bytes c)

  -- The read completes: `Decode` is called on the connection with the shared lock held, if there was no error and the
  -- connection is not closing, and what it does to the connection is what `step` does with it; without a result of
  -- `Decode` there is none.
  pub read_service :
      Decoder → Bytes → Bool → (Connection → Connection) → Connection → Option Connection
  unfolding decode_service
  read_service d bytes error f c =
      let after = step (read_done error (decoded_service d bytes) f) c in
      if c.status.closing || error
      then after
      else (decode_service d bytes (record c { reads = c.reads - 1; shared = c.shared + 1 })
          >>= λ result. after)
