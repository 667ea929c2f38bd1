-- ===== src/Raw/Like.antt =====
-- Connection.hpp: what `PushData` and `ScheduleWrite` leave as it was.
use tt3d.Base.{◌≡◌, ◌∙◌, refl, arith, Bool, Option, none, some}
use tt3d.Buffers.{Bytes}
use tt3d.Raw.{Connection, push_data, schedule_write, raw_schedule_write, internal_push_data}
use tt3d.Raw.Handlers.{Like}

pub Like-refl : (c : Connection) → Like c c
Like-refl c = record {
  shared = refl;
  exclusive = refl;
  impl = refl;
  socket = refl;
  connection = refl;
  closing = refl;
  reads = refl;
  reading = refl;
  writing = λ f. f;
}

pub Like-trans : {a b c : Connection} → Like a b → Like b c → Like a c
Like-trans l m = record {
  shared = m.shared ∙ l.shared;
  exclusive = m.exclusive ∙ l.exclusive;
  impl = m.impl ∙ l.impl;
  socket = m.socket ∙ l.socket;
  connection = m.connection ∙ l.connection;
  closing = m.closing ∙ l.closing;
  reads = m.reads ∙ l.reads;
  reading = m.reading ∙ l.reading;
  writing = λ f. m.writing (l.writing f);
}

pub push_data-Like :
    (item : Option (Bytes × Bytes)) (c : Connection) (b : Bool) (c' : Connection)
    → push_data item c ≡ some (b, c')
    → Like c c'
unfolding push_data internal_push_data
push_data-Like none c b c' e = ground (arith, e)
push_data-Like (some (h, d)) c b c' e = ground (arith, e)

pub schedule_write-Like :
    (c : Connection) (b : Bool) (c' : Connection) → schedule_write c ≡ some (b, c') → Like c c'
unfolding schedule_write raw_schedule_write
schedule_write-Like c b c' e = ground (arith, e)
