-- ===== src/Methods/Tests.antt =====
-- ProtobufConnection.cpp: the theorems about methods, at a concrete service and connection.
use tt3d.Base.{arith, false, true, inl, ℕ, ◌+◌, ◌≡◌, ◌⊎◌, refl, [], ◌∷◌, none, some, ◌>>=◌}
use tt3d.Wire.{
  consume_start, consume_length, consume_full, consume_content, consume_at, consume, decode,
  decode_rounds, decode_bytes, new_decoder, Bytes, MetaData, MetaType, encode_message,
}
use tt3d.Wire.Plain.{parse, to_int, plain, serialize, to_text}
use tt3d.Methods.Sample.{two_methods, nine, nothing_else, open_connection, open_connection-IsOpen}
use tt3d.Buffers
use tt3d.Raw.{push_data, internal_push_data, schedule_write, raw_schedule_write, set_closing}
use tt3d.Raw.Open.{Took}
use tt3d.Methods.{
  HandlerTable, call_service_method_done, handle_service, find_method, register_service, handle,
  read_service,
}
use tt3d.Methods.{response_meta}
use tt3d.Methods.Answer.{handle-Took}
use tt3d.Raw.{Connection}
use tt3d.Raw.Stream.{item_bytes}
use tt3d.Methods.Register.{IsNew, Holds, register_service-Holds}
use tt3d.Raw.Handlers.{Ends, Inv, IsOthers}
use tt3d.Raw.Like.{Like-refl}
use tt3d.Wire.World.{Stands, or_fault}
use tt3d.Methods.Reading.{read_service-Inv}
use tt3d.Methods.Late.{
  Late, Request, handle_each, run_each, answers_to, late-crossed, run_late, run_late-closing,
}

abbrev hash_first : Bytes → ℕ
hash_first [] = 0
hash_first (b ∷ bs) = b + 100

abbrev request : MetaData
request = record {
  type = MetaType.request;
  identify = 102;
  response_identify = some 77;
  content = 5 ∷ 6 ∷ [];
}

register_service-Holds_example :
    (IsNew hash_first two_methods (1 ∷ 2 ∷ []) ((109, 9) ∷ [])
      × ((new : HandlerTable) × (register_service hash_first two_methods (some ((109, 9) ∷ []))
            ≡ some new)
          × Holds hash_first two_methods (1 ∷ 2 ∷ []) ((109, 9) ∷ []) new))
    ⊎ ((IsNew hash_first two_methods (1 ∷ 2 ∷ []) ((109, 9) ∷ []) → ⊥)
        × (register_service hash_first two_methods (some ((109, 9) ∷ [])) ≡ none))
register_service-Holds_example =
    register_service-Holds hash_first two_methods (some ((109, 9) ∷ []))

abbrev another : MetaData
another = record request { response_identify = some 78; content = 7 ∷ [] }

abbrev asked : Request
asked = record { meta = request; method = 2; answer = 2 ∷ 5 ∷ 6 ∷ [] }

abbrev asked_then : Request
asked_then = record { meta = another; method = 2; answer = 2 ∷ 7 ∷ [] }

abbrev nothing_waits : Late
nothing_waits = record { decoded = none; waiting = []; connection = open_connection }

late-crossed_example :
    (l' : Late) × ((handle_each plain nothing_else two_methods nine
          (request ∷ another ∷ [])
          nothing_waits
        >>= run_each plain nothing_else two_methods nine 2)
      ≡ some l')
    × (l'.waiting ≡ [])
    × Took (answers_to plain another (asked ∷ asked_then ∷ [])) open_connection l'.connection
unfolding find_method
late-crossed_example =
    late-crossed plain nothing_else two_methods nine (asked ∷ []) asked_then nothing_waits
      (λ d. refl) open_connection-IsOpen
      (
        record { registered = refl; parsed = refl; responds = refl },
        (record { registered = refl; parsed = refl; responds = refl }, tt),
      )
      refl

-- The service has been called, and the connection is closed after `PushData`.
abbrev one_waits : Late
one_waits = record {
  decoded = some request;
  waiting = (2, 5 ∷ 6 ∷ []) ∷ [];
  connection = open_connection;
}

run_late-closing_example : run_late plain set_closing two_methods nine one_waits ≡ none
unfolding encode_message serialize to_text
run_late-closing_example =
    run_late-closing plain set_closing two_methods nine 2 (5 ∷ 6 ∷ []) (2 ∷ 5 ∷ 6 ∷ []) request
      (b'7' ∷ b':' ∷ [], 2 ∷ 77 ∷ 0 ∷ 0 ∷ 2 ∷ 5 ∷ 6 ∷ []) [] one_waits refl refl refl refl refl
      (λ d. (refl, refl))

open_connection-Inv : Inv open_connection
open_connection-Inv = ground arith

nothing_else-IsOthers : IsOthers nothing_else
nothing_else-IsOthers = record {
  shared = λ c. refl;
  exclusive = λ c. refl;
  reads = λ c h. h;
  writes = λ c h. h;
  open' = λ c. inl refl;
}

-- A request and half of a header.
abbrev a_read : Bytes
a_read = b'6' ∷ b':' ∷ 1 ∷ 102 ∷ 1 ∷ 77 ∷ 5 ∷ 6 ∷ b'1' ∷ b'0' ∷ []

a_read-Stands : Stands (
    decode_bytes plain
      (or_fault (handle plain nothing_else two_methods (some nine)))
      new_decoder
      a_read
      (some (record open_connection { reads = 0; shared = 1 })))
unfolding decode_bytes decode_rounds decode consume consume_at consume_start consume_length
    consume_full consume_content new_decoder parse to_int or_fault handle handle_service find_method
    call_service_method_done push_data internal_push_data encode_message serialize schedule_write
    raw_schedule_write Buffers.empty Buffers.push
a_read-Stands = tt

read_service-Inv_example : Ends Inv (
    read_service plain nothing_else two_methods
      (some nine)
      new_decoder
      a_read
      false
      nothing_else
      open_connection)
read_service-Inv_example =
    read_service-Inv plain nothing_else two_methods (some nine) new_decoder a_read false
      nothing_else open_connection Like-refl (λ method request. (method ∷ request, refl))
      nothing_else-IsOthers open_connection-Inv (omega arith) (λ h. a_read-Stands)

handle-Took_example :
    (c' : Connection) × (handle plain nothing_else two_methods (some nine) request open_connection
      ≡ some (true, c'))
    × Took
        (item_bytes (encode_message plain (response_meta request (2 ∷ 5 ∷ 6 ∷ []))))
        open_connection
        c'
unfolding find_method
handle-Took_example =
    handle-Took plain nothing_else two_methods nine request 2 (2 ∷ 5 ∷ 6 ∷ []) open_connection
      (λ d. refl) open_connection-IsOpen refl refl refl
