-- ===== src/Rpc/Ended/Tests.antt =====
-- A client's life at a concrete client, for which one call waits.
use tt3d.Base.{ℕ, ◌+◌, ◌≡◌, refl, arith, Bool, true, false, List, [], ◌∷◌, ◌++◌, none, some, inl}
use tt3d.Wire.{Bytes, new_decoder, decode_bytes}
use tt3d.Wire.{
  consume_start, consume_length, consume_full, consume_content, consume_at, consume, decode,
  decode_rounds,
}
use tt3d.Wire.World.{or_fault, Stands}
use tt3d.Wire.Plain.{parse, to_int, plain}
use tt3d.Raw.{timer, schedule}
use tt3d.Raw.Handlers.{IsOthers}
use tt3d.Raw.Gone.{IsThorough}
use tt3d.Methods
use tt3d.Methods.Sample.{two_methods, nothing_else, open_connection}
use tt3d.Rpc.{Call, new_controller, handle, answered, lookup, release_response_table}
use tt3d.Rpc.Times.{times}
use tt3d.Rpc.Once.{total}
use tt3d.Rpc.Life.{Living, ClientEvent, calls, reads, happens}
use tt3d.Rpc.Progress.{IsLiving}
use tt3d.Rpc.Ended.{lives, all_given, lives-release, silent_peer-ran}

abbrev number : ℕ → Call
number n = record { number = n; controller = some 0; done = true }

abbrev living : Living
living = record {
  client = record {
    connection = open_connection;
    table = (50, number 1) ∷ [];
    seq = 3;
    world = record { controllers = λ n. new_controller; ran = []; filled = [] };
  };
  decoder = new_decoder;
}

clash : {b : Bool} → b ≡ true → b ≡ false → ⊥
clash p q = cc

living-IsLiving : IsLiving living
living-IsLiving = record {
  kept = ground arith;
  gone = λ h. absurd (clash h refl);
  empty = λ h. absurd (clash refl h);
}

nothing_else-IsOthers : IsOthers nothing_else
nothing_else-IsOthers = record {
  shared = λ c. refl;
  exclusive = λ c. refl;
  reads = λ c h. h;
  writes = λ c h. h;
  open' = λ c. inl refl;
}

nothing_else-IsThorough : IsThorough nothing_else
nothing_else-IsThorough c o h = absurd (clash h o)

abbrev all_parse : ℕ → Bytes → Bool
all_parse n b = true

abbrev tick : ClientEvent
tick = happens (timer true nothing_else)

abbrev response_read : Bytes
response_read = (b'5' ∷ b':' ∷ 2 ∷ 50 ∷ 0 ∷ 0 ∷ 9 ∷ []) ++ b'x' ∷ []

-- The response to the identify 50, with a byte that is no part of a message after it, and two expiries of the timer.
abbrev answered_and_closed : List ClientEvent
answered_and_closed = reads false response_read nothing_else ∷ tick ∷ happens schedule ∷ []

response_read-Stands : Stands (
    decode_bytes plain
      (or_fault (handle plain nothing_else two_methods none all_parse))
      new_decoder
      response_read
      (some living.client))
unfolding decode_bytes decode_rounds decode consume consume_at consume_start consume_length
    consume_full consume_content new_decoder parse to_int or_fault handle answered lookup
    Methods.handle
response_read-Stands = tt

lives-release_example :
    (l' : Living) × (lives plain nothing_else two_methods all_parse answered_and_closed living
      ≡ some l')
    × IsLiving l'
    × ((m : ℕ)
        → times m (release_response_table all_parse l'.client).world.ran
          ≡ total m living.client + all_given m answered_and_closed)
lives-release_example =
    lives-release plain nothing_else two_methods all_parse answered_and_closed living
      living-IsLiving
      (
        (omega arith, nothing_else-IsOthers, nothing_else-IsThorough, (λ h. response_read-Stands)),
        (λ l1 e. (
          (nothing_else-IsOthers, tt, nothing_else-IsThorough),
          (λ l2 f. ((tt, tt, tt), (λ l3 g. tt))),
        )),
      )

-- A call, and three heartbeats without a byte from the peer.
abbrev called_in_vain : List ClientEvent
called_in_vain = calls 102 50 (some (5 ∷ [])) (number 2) ∷ tick ∷ tick ∷ tick ∷ []

silent_peer-ran_example :
    (l' : Living) × (lives plain nothing_else two_methods all_parse called_in_vain living ≡ some l')
    × (l'.client.connection.status.closing ≡ true)
    × (l'.client.table ≡ [])
    × ((m : ℕ) → times m l'.client.world.ran ≡ total m living.client + all_given m called_in_vain)
silent_peer-ran_example =
    silent_peer-ran plain nothing_else two_methods all_parse called_in_vain living living-IsLiving
      refl (omega arith)
      (
        (omega arith, omega arith),
        (λ l1 e. (
          (nothing_else-IsOthers, tt, nothing_else-IsThorough),
          (λ l2 f. (
            (nothing_else-IsOthers, tt, nothing_else-IsThorough),
            (λ l3 g. ((nothing_else-IsOthers, tt, nothing_else-IsThorough), (λ l4 i. tt))),
          )),
        )),
      )
      (omega arith)
