-- ===== src/Raw/Stream.antt =====
-- RawConnection.cpp, `PushData`, `ScheduleWrite` and `HandleWrite`: the two buffers are one stream of
-- bytes, in the order of the pushes.
use tt3d.Base.{
  ℕ, ◌+◌, ◌≤◌, ◌≡◌, ◌∙◌, ◌⊎◌, inl, inr, sym, ap, subst, arith, Bool, true, false, [], ◌++◌, take,
  drop, append_assoc, append-nil, take-append-drop, Option, none, some,
}
use tt3d.Buffers
use tt3d.Buffers.{Bytes, SharedConstBuffers}
use tt3d.Buffers.Consume.{contents, IsQueue, contents-push, contents-consume, contents-empty}
use tt3d.Raw.{
  step, write_done, Connection, incoming, outcoming, internal_push_data, raw_schedule_write,
  handle_write, schedule_write, push_data, completed,
}

-- The bytes not yet written: those of the buffer that is being written come first.
abbrev pub stream : Connection → Bytes
stream c = contents (outcoming c) ++ contents (incoming c)

pub record IsStream (c : Connection) : Type 0 where
  pub index : c.incoming_index ≤ 1
  pub queue_0 : IsQueue c.duplex_0
  pub queue_1 : IsQueue c.duplex_1
  pub drained : c.status.writing ≡ false → contents (outcoming c) ≡ []

-- The bytes of a pair that is pushed.
abbrev pub item_bytes : Option (Bytes × Bytes) → Bytes
item_bytes none = []
item_bytes (some (header, content)) = header ++ content

-- One more call: the bytes that it writes, and those that it adds at the end.
pub record Flows (written added : Bytes) (c c' : Connection) : Type 0 where
  pub kept : IsStream c'
  pub flow : written ++ stream c' ≡ stream c ++ added

push_pair :
    (b : SharedConstBuffers) (header content : Bytes)
    → IsQueue b
    → (contents (Buffers.push (Buffers.push b header) content) ≡ contents b ++ (header ++ content))
      × IsQueue (Buffers.push (Buffers.push b header) content)
push_pair b header content q =
    let p = contents-push b header q in
    let p' = contents-push (Buffers.push b header) content p.1 in
    (p'.0 ∙ ap (λ t. t ++ content) p.0 ∙ append_assoc (contents b) header content, p'.1)

at_index : (c : Connection) → c.incoming_index ≤ 1 → (c.incoming_index ≡ 0) ⊎ (c.incoming_index ≡ 1)
at_index c h = ground arith

pub push-Flows :
    (item : Option (Bytes × Bytes)) (c : Connection)
    → IsStream c
    → Flows [] (item_bytes item) c (internal_push_data item c)
unfolding internal_push_data
push-Flows none c s = record { kept = s; flow = sym (append-nil (stream c)) }
push-Flows (some (header, content)) c s =
    let p = push_pair c.duplex_0 header content s.queue_0 in
    let p' = push_pair c.duplex_1 header content s.queue_1 in
    elim (at_index c s.index) [
      | inl e ↦ rw e (record {
        kept = record {
          index = omega arith;
          queue_0 = p.1;
          queue_1 = s.queue_1;
          drained = λ w. rw e at (s.drained w);
        };
        flow =
            ap (λ t. contents c.duplex_1 ++ t) p.0
            ∙ sym (append_assoc (contents c.duplex_1) (contents c.duplex_0) (header ++ content));
      })
      | inr e ↦ rw e (record {
        kept = record {
          index = omega arith;
          queue_0 = s.queue_0;
          queue_1 = p'.1;
          drained = λ w. rw e at (s.drained w);
        };
        flow =
            ap (λ t. contents c.duplex_0 ++ t) p'.0
            ∙ sym (append_assoc (contents c.duplex_0) (contents c.duplex_1) (header ++ content));
      })
    ]

back : (n : ℕ) (xs ys : Bytes) → take n xs ++ (drop n xs ++ ys) ≡ (xs ++ ys) ++ []
back n xs ys =
    sym (append_assoc (take n xs) (drop n xs) ys)
    ∙ ap (λ t. t ++ ys) (take-append-drop n xs)
    ∙ sym (append-nil (xs ++ ys))

-- Where nothing is left, the queues may change places.
all_taken :
    (n : ℕ) (xs ys : Bytes) → drop n xs ≡ [] → take n xs ++ (ys ++ drop n xs) ≡ (xs ++ ys) ++ []
all_taken n xs ys e =
    ap (λ t. take n xs ++ (ys ++ t)) e
    ∙ ap (λ t. take n xs ++ t) (append-nil ys ∙ ap (λ t. t ++ ys) (sym e))
    ∙ back n xs ys

-- What a write's completion does to the two queues.
write_done-Flows :
    (n : ℕ) (f : Connection → Connection) (c c' : Connection)
    → IsStream c
    → c.status.closing ≡ false
    → step (write_done false n f) c ≡ some c'
    → Flows (take n (contents (outcoming c))) [] c c'
unfolding step completed handle_write
write_done-Flows n f c c' s h e = ground (
  arith,
  contents-consume c.duplex_0 n s.queue_0,
  contents-consume c.duplex_1 n s.queue_1,
  contents-empty (Buffers.consume c.duplex_0 n),
  contents-empty (Buffers.consume c.duplex_1 n),
  contents-empty c.duplex_0,
  contents-empty c.duplex_1,
  back n (contents c.duplex_0) (contents c.duplex_1),
  back n (contents c.duplex_1) (contents c.duplex_0),
  all_taken n (contents c.duplex_0) (contents c.duplex_1),
  all_taken n (contents c.duplex_1) (contents c.duplex_0),
  s.index,
  s.queue_0,
  s.queue_1,
)

pub push_data-Flows :
    (item : Option (Bytes × Bytes)) (c c' : Connection)
    → IsStream c
    → push_data item c ≡ some (true, c')
    → Flows [] (item_bytes item) c c'
unfolding push_data
push_data-Flows item c c' s e =
    let c1 = record c { shared = c.shared + 1 } in
    let s1 : IsStream c1 = record {
      index = s.index;
      queue_0 = s.queue_0;
      queue_1 = s.queue_1;
      drained = s.drained;
    } in
    let f = push-Flows item c1 s1 in ground (arith, f.kept, f.flow)

pub raw_schedule_write-Flows :
    (c c' : Connection) → IsStream c → raw_schedule_write c ≡ some c' → Flows [] [] c c'
unfolding raw_schedule_write
raw_schedule_write-Flows c c' s e = ground (
  arith,
  contents-empty c.duplex_0,
  contents-empty c.duplex_1,
  append-nil (stream c),
  append-nil (contents c.duplex_0),
  append-nil (contents c.duplex_1),
  s.index,
  s.queue_0,
  s.queue_1,
  s.drained,
)

pub schedule_write-Flows :
    (taken : Bool) (c c' : Connection)
    → IsStream c
    → schedule_write c ≡ some (taken, c')
    → Flows [] [] c c'
unfolding schedule_write raw_schedule_write
schedule_write-Flows taken c c' s e = ground (
  arith,
  contents-empty c.duplex_0,
  contents-empty c.duplex_1,
  append-nil (stream c),
  append-nil (contents c.duplex_0),
  append-nil (contents c.duplex_1),
  s.index,
  s.queue_0,
  s.queue_1,
  s.drained,
)

-- The calls of a connection's life, with the bytes that the socket took and those that were pushed.
-- A push that the connection refused adds none.
pub data Runs (c : Connection) : Bytes → Bytes → Connection → Type 0 where
  start : Runs c [] [] c
  pushed :
      {w p : Bytes} {c1 c2 : Connection} (item : Option (Bytes × Bytes))
      → Runs c w p c1
      → push_data item c1 ≡ some (true, c2)
      → Runs c w (p ++ item_bytes item) c2
  scheduled :
      {w p : Bytes} {c1 c2 : Connection} (taken : Bool)
      → Runs c w p c1
      → schedule_write c1 ≡ some (taken, c2)
      → Runs c w p c2
  written :
      {w p : Bytes} {c1 c2 : Connection} (n : ℕ) (f : Connection → Connection)
      → Runs c w p c1
      → c1.status.closing ≡ false
      → step (write_done false n f) c1 ≡ some c2
      → Runs c (w ++ take n (contents (outcoming c1))) p c2

pub join :
    {w p w' p' : Bytes} {c c1 c2 : Connection}
    → Flows w p c c1
    → Flows w' p' c1 c2
    → Flows (w ++ w') (p ++ p') c c2
join {w = w} {p = p} {w' = w'} {p' = p'} {c = c} {c1 = c1} {c2 = c2} h f = record {
  kept = f.kept;
  flow =
      append_assoc w w' (stream c2)
      ∙ ap (λ t. w ++ t) f.flow
      ∙ sym (append_assoc w (stream c1) p')
      ∙ ap (λ t. t ++ p') h.flow
      ∙ append_assoc (stream c) p p';
}

none_written : (w p : Bytes) (c c' : Connection) → Flows (w ++ []) p c c' → Flows w p c c'
none_written w p c c' f = subst (λ t. Flows t p c c') (append-nil w) f

none_pushed : (w p : Bytes) (c c' : Connection) → Flows w (p ++ []) c c' → Flows w p c c'
none_pushed w p c c' f = subst (λ t. Flows w t c c') (append-nil p) f

Runs-Flows : {c c' : Connection} {w p : Bytes} → IsStream c → Runs c w p c' → Flows w p c c'
Runs-Flows {c = c} s start = record { kept = s; flow = sym (append-nil (stream c)) }
Runs-Flows s (pushed item r e) =
    let f = Runs-Flows s r in none_written _ _ _ _ (join f (push_data-Flows item _ _ f.kept e))
Runs-Flows s (scheduled taken r e) =
    let f = Runs-Flows s r in
    none_written _ _ _ _ (none_pushed _ _ _ _ (join f (schedule_write-Flows taken _ _ f.kept e)))
Runs-Flows s (written n f r h e) =
    let g = Runs-Flows s r in none_pushed _ _ _ _ (join g (write_done-Flows n f _ _ g.kept h e))

-- The socket takes the pushed bytes in the order of the pushes: after any calls that push, schedule
-- and complete writes without an error, what it has taken, and then what the
-- two queues still hold, is what they held at first, and then what was pushed since.
pub runs-stream :
    (c c' : Connection) (w p : Bytes)
    → IsStream c
    → Runs c w p c'
    → IsStream c' × (w ++ stream c' ≡ stream c ++ p)
runs-stream c c' w p s r = let f = Runs-Flows s r in (f.kept, f.flow)
