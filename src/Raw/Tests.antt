-- ===== src/Raw/Tests.antt =====
-- Connection.hpp and RawConnection.cpp: the theorems at concrete connections.
use tt3d.Base.{◌==◌, not, ◌≡◌, refl, inl, arith, true, false, [], ◌∷◌, ◌++◌, some}
use tt3d.Buffers.{Bytes, SharedConstBuffers, new_buffers, consume_from}
use tt3d.Buffers
use tt3d.Buffers.Consume.{contents}
use tt3d.Raw.{
  Connection, step, write_done, push_data, internal_push_data, schedule_write, raw_schedule_write,
  told, completed, handle_write, expired, heartbeat, raw_disconnect, impl_closed, timer, schedule,
}
use tt3d.Raw.Handlers.{Ends, Inv, IsOthers, step-Inv}
use tt3d.Raw.Closing.{Unmoved, step-Unmoved}
use tt3d.Raw.Beats.{beats, in_window, beats-closing}
use tt3d.Raw.Word.{
  Shows, changes, changes-Shows, reading_set, writing_set, reading_cleared, closing_set,
}
use tt3d.Raw.Telling.{IsCaller}
use tt3d.Raw.Told.{Course, setting_out, going, silent-Tells}
use tt3d.Raw.Stream.{stream, IsStream, Runs, start, pushed, scheduled, written, runs-stream}

abbrev nothing_else : Connection → Connection
nothing_else c = c

nothing_else-IsOthers : IsOthers nothing_else
nothing_else-IsOthers = record {
  shared = λ c. refl;
  exclusive = λ c. refl;
  reads = λ c h. h;
  writes = λ c h. h;
  open' = λ c. inl refl;
}

abbrev opened : Connection
opened = record {
  status = record { reading = true; writing = false; closing = false };
  shared = 0;
  exclusive = false;
  impl = true;
  listeners = 7 ∷ 8 ∷ [];
  held = λ l. l == 7;
  notified = [];
  socket = true;
  connection = true;
  incoming_index = 0;
  duplex_0 = new_buffers;
  duplex_1 = new_buffers;
  send_package = 5;
  recv_package = 4;
  reads = 1;
  writes = 0;
  oob_reads = 1;
}

abbrev writing_two : Connection
writing_two = record opened {
  status = record { reading = true; writing = true; closing = false };
  incoming_index = 1;
  duplex_0 = record { buffer = (1 ∷ 2 ∷ []) ∷ []; store = (1 ∷ 2 ∷ []) ∷ []; start = 0 };
  writes = 1;
}

writing_two-Inv : Inv writing_two
writing_two-Inv = ground arith

opened-Inv : Inv opened
opened-Inv = ground arith

step-Inv_example : Ends Inv (step (write_done false 2 nothing_else) writing_two)
step-Inv_example =
    step-Inv (write_done false 2 nothing_else) writing_two writing_two-Inv
      (omega arith, nothing_else-IsOthers)

abbrev closed : Connection
closed = record writing_two { status = record { reading = true; writing = true; closing = true } }

closed-Inv : Inv closed
closed-Inv = ground arith

step-Unmoved_example : Ends (Unmoved closed) (step (write_done true 0 nothing_else) closed)
step-Unmoved_example = step-Unmoved (write_done true 0 nothing_else) closed closed-Inv refl

-- Two are sent before one comes, then two more, and the second of these closes.
beats-closing_example :
    Ends
      (λ c'. c'.status.closing ≡ not (in_window (true ∷ false ∷ true ∷ true ∷ []) 5 4))
      (beats nothing_else (true ∷ false ∷ true ∷ true ∷ []) opened)
beats-closing_example =
    beats-closing nothing_else (true ∷ false ∷ true ∷ true ∷ []) opened opened-Inv
      nothing_else-IsOthers refl refl

changes-Shows_example :
    Shows
      (changes (reading_set ∷ writing_set ∷ reading_cleared ∷ closing_set ∷ []) 0)
      (record { reading = false; writing = true; closing = true })
changes-Shows_example =
    changes-Shows (reading_set ∷ writing_set ∷ reading_cleared ∷ closing_set ∷ [])

-- Two heartbeats without an answer, and a write scheduled between them.
abbrev beaten_once : Connection
beaten_once = record opened { send_package = 6 }

abbrev dropped : Connection
dropped = record opened {
  status = record { reading = true; writing = false; closing = true };
  impl = false;
  listeners = [];
  notified = 7 ∷ [];
  socket = false;
  connection = false;
  incoming_index = 1;
  send_package = 7;
}

nothing_else-IsCaller : IsCaller nothing_else
nothing_else-IsCaller c o = ground (arith, o)

two_beats : Course opened 2 0 dropped
unfolding step expired heartbeat schedule_write raw_schedule_write Buffers.empty raw_disconnect
    impl_closed
two_beats =
    going (timer true nothing_else)
      (going schedule
        (going (timer true nothing_else) setting_out nothing_else-IsOthers tt nothing_else-IsCaller
          refl)
        tt tt tt refl)
      nothing_else-IsOthers tt nothing_else-IsCaller refl

silent-Tells_example :
    (dropped.status.closing ≡ true)
    × (dropped.notified ≡ opened.notified ++ told opened.held opened.listeners)
    × (dropped.listeners ≡ [])
silent-Tells_example =
    silent-Tells 2 0 opened dropped opened-Inv refl refl (omega arith) two_beats (omega arith)

-- A message is pushed and its write is started, another is pushed, and two bytes go out.
abbrev first_pushed : Connection
first_pushed = record opened {
  duplex_0 = record {
    buffer = (1 ∷ []) ∷ (2 ∷ 3 ∷ []) ∷ [];
    store = (1 ∷ []) ∷ (2 ∷ 3 ∷ []) ∷ [];
    start = 0;
  };
}

abbrev first_scheduled : Connection
first_scheduled = record first_pushed {
  status = record { reading = true; writing = true; closing = false };
  incoming_index = 1;
  writes = 1;
}

abbrev second_pushed : Connection
second_pushed = record first_scheduled {
  duplex_1 = record {
    buffer = (4 ∷ []) ∷ (5 ∷ []) ∷ [];
    store = (4 ∷ []) ∷ (5 ∷ []) ∷ [];
    start = 0;
  };
}

abbrev two_written : Connection
two_written = record second_pushed {
  duplex_0 = record {
    buffer = (1 ∷ []) ∷ (3 ∷ []) ∷ [];
    store = (1 ∷ []) ∷ (2 ∷ 3 ∷ []) ∷ [];
    start = 1;
  };
}

push_first : push_data (some (1 ∷ [], 2 ∷ 3 ∷ [])) opened ≡ some (true, first_pushed)
unfolding push_data internal_push_data Buffers.push
push_first = refl

schedule_first : schedule_write first_pushed ≡ some (true, first_scheduled)
unfolding schedule_write raw_schedule_write Buffers.empty
schedule_first = refl

push_second : push_data (some (4 ∷ [], 5 ∷ [])) first_scheduled ≡ some (true, second_pushed)
unfolding push_data internal_push_data Buffers.push
push_second = refl

write_two : step (write_done false 2 nothing_else) second_pushed ≡ some two_written
unfolding step completed handle_write Buffers.consume consume_from Buffers.empty
write_two = refl

two_messages : Runs opened (1 ∷ 2 ∷ []) (1 ∷ 2 ∷ 3 ∷ 4 ∷ 5 ∷ []) two_written
unfolding contents
two_messages =
    written 2 nothing_else
      (pushed (some (4 ∷ [], 5 ∷ []))
        (scheduled true (pushed (some (1 ∷ [], 2 ∷ 3 ∷ [])) start push_first) schedule_first)
        push_second)
      refl write_two

opened-IsStream : IsStream opened
unfolding contents
opened-IsStream = record {
  index = omega arith;
  queue_0 = record { within = omega arith };
  queue_1 = record { within = omega arith };
  drained = λ h. refl;
}

runs-stream_example :
    IsStream two_written
    × ((1 ∷ 2 ∷ []) ++ stream two_written ≡ stream opened ++ (1 ∷ 2 ∷ 3 ∷ 4 ∷ 5 ∷ []))
runs-stream_example =
    runs-stream opened two_written (1 ∷ 2 ∷ []) (1 ∷ 2 ∷ 3 ∷ 4 ∷ 5 ∷ []) opened-IsStream
      two_messages
