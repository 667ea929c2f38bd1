-- ===== src/Rpc/Tests.antt =====
-- RawProtobufConnection.cpp: the theorems about calls, at a concrete client and server.
use tt3d.Base.{ap, ℕ, Bool, ◌≡◌, refl, arith, true, false, List, [], ◌∷◌, none, some}
use tt3d.Wire.{Bytes}
use tt3d.Wire.Plain.{plain, plain-IsCodec, plain-IsSendable}
use tt3d.Wire.Feed.{concat}
use tt3d.Buffers.Consume.{contents}
use tt3d.Methods.{find_method}
use tt3d.Methods.Sample.{two_methods, nine, nothing_else, open_connection, open_connection-IsOpen}
use tt3d.Rpc.{new_controller, Call, World, Client, fresh_identify}
use tt3d.Rpc.Fresh.{Found, fresh_identify_ends}
use tt3d.Rpc.Exchange.{Exchange}
use tt3d.Rpc.Batch.{IsExchange, RepliedAll, batch, batch-RepliedAll}

abbrev no_calls : World
no_calls = record { controllers = λ n. new_controller; ran = []; filled = [] }

-- One call waits for the identify 50.
abbrev first_call : Call
first_call = record { number = 1; controller = some 0; done = true }

abbrev second_call : Call
second_call = record { number = 2; controller = none; done = true }

abbrev one_waits : Client
one_waits = record {
  connection = open_connection;
  table = (50, first_call) ∷ [];
  seq = 3;
  world = no_calls;
}

abbrev all_parse : ℕ → Bytes → Bool
all_parse n b = true

-- The identify 50 is waited for, and the next is 50 + 4.
fresh_identify_ends_example : Found 3 (50 ∷ []) (fresh_identify 2 3 50 (50 ∷ []))
fresh_identify_ends_example = fresh_identify_ends 3 50 (50 ∷ []) (omega arith) (omega arith)

-- Byte by byte.
abbrev one_by_one : Bytes → List Bytes
one_by_one [] = []
one_by_one (b ∷ bs) = (b ∷ []) ∷ one_by_one bs

concat-one_by_one : (b : Bytes) → concat (one_by_one b) ≡ b
concat-one_by_one [] = refl
concat-one_by_one (b ∷ bs) = ap (λ t. b ∷ t) (concat-one_by_one bs)

-- Two calls of method 2, one of them without a controller.
abbrev asked_first : Exchange
asked_first = record {
  identify = 102;
  hash = 50;
  content = 5 ∷ 6 ∷ [];
  call = second_call;
  method = 2;
  answer = 2 ∷ 5 ∷ 6 ∷ [];
}

abbrev asked_next : Exchange
asked_next = record {
  identify = 102;
  hash = 50;
  content = 7 ∷ [];
  call = record { number = 3; controller = some 1; done = false };
  method = 2;
  answer = 2 ∷ 7 ∷ [];
}

IsExchange-first :
    IsExchange plain nothing_else nothing_else two_methods nine all_parse one_by_one one_by_one
      asked_first
unfolding find_method
IsExchange-first = record {
  hash = omega arith;
  registered = refl;
  parsed = refl;
  responds = refl;
  taken = refl;
  request = λ id h. plain-IsSendable _ refl (omega arith);
  response = λ id h. plain-IsSendable _ refl (omega arith);
}

IsExchange-next :
    IsExchange plain nothing_else nothing_else two_methods nine all_parse one_by_one one_by_one
      asked_next
unfolding find_method
IsExchange-next = record {
  hash = omega arith;
  registered = refl;
  parsed = refl;
  responds = refl;
  taken = refl;
  request = λ id h. plain-IsSendable _ refl (omega arith);
  response = λ id h. plain-IsSendable _ refl (omega arith);
}

batch-RepliedAll_example :
    (s' : Client) × (batch plain nothing_else nothing_else two_methods nine all_parse one_by_one
        one_by_one
        (asked_first ∷ asked_next ∷ [])
        one_waits
        open_connection
      ≡ some s')
    × RepliedAll (asked_first ∷ asked_next ∷ []) one_waits.table one_waits.world s'
unfolding contents
batch-RepliedAll_example =
    batch-RepliedAll plain nothing_else nothing_else two_methods nine all_parse one_by_one
      one_by_one (asked_first ∷ asked_next ∷ []) one_waits open_connection plain-IsCodec (λ d. refl)
      concat-one_by_one concat-one_by_one open_connection-IsOpen open_connection-IsOpen refl refl
      (omega arith) (IsExchange-first, (IsExchange-next, tt))
