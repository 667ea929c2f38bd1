-- ===== src/Methods/Late.antt =====
-- ProtobufConnection.cpp with a service that runs its closure only after its `CallMethod` has returned:
-- `CallServiceMethodDone` then reads the decoder as it is by that time.
use tt3d.Base.{
  ℕ, zero, suc, ◌+◌, ◌-◌, ◌≡◌, ◌∙◌, refl, ap, sym, arith, Bool, true, false, not, List, [], ◌∷◌,
  ◌++◌, Option, none, some, length, All, if◌then◌else◌, ◌>>=◌, append-nil, append_assoc,
  Option-cases, inl, inr,
}
use tt3d.Wire.{Bytes, Codec, MetaData, encode_message}
use tt3d.Raw.{Connection, push_data, internal_push_data, schedule_write}
use tt3d.Raw.Stream.{stream, item_bytes}
use tt3d.Raw.Open.{IsOpen, Took, Took-trans}
use tt3d.Methods.{
  Service, HandlerTable, find_method, call_service_method_done, response_meta, handle,
  handle_service,
}
use tt3d.Methods.Answer.{call_service_method_done-Took}

-- The message that the decoder holds (`reset` leaves it there), and the calls whose closures have not run,
-- oldest first: their methods and what their requests held.
pub record Late : Type 0 where
  pub decoded : Option MetaData
  pub waiting : List (ℕ × Bytes)
  pub connection : Connection

module _ (k : Codec) (meanwhile : Connection → Connection) (s : Service)
    (table : HandlerTable) where
  -- `Handle` and `HandleService`: the closure waits.
  pub handle_late : MetaData → Late → Bool × Late
  unfolding find_method
  handle_late meta l =
      let l1 = record l { decoded = some meta } in
      elim (find_method meta.identify table) [
        | none ↦ (false, l1)
        | some method ↦
            if not (s.parses method meta.content)
            then (true, l1)
            else (true, record l1 { waiting = l.waiting ++ (method, meta.content) ∷ [] })
      ]

  -- The oldest closure runs.
  pub run_late : Late → Option Late
  run_late l = elim l.waiting [
    | [] ↦ some l
    | (method, content) ∷ rest ↦ elim l.decoded [
      | none ↦ none
      | some meta ↦
          call_service_method_done k meanwhile meta (s.answer method content) l.connection >>= λ c.
          some (record l { waiting = rest; connection = c })
    ]
  ]

  -- Messages one after the other, unless one is refused.
  pub handle_each : List MetaData → Late → Option Late
  unfolding handle_late
  handle_each [] l = some l
  handle_each (m ∷ ms) l =
      let (ok, l1) = handle_late m l in let rest = handle_each ms l1 in if ok then rest else none

  pub run_each : ℕ → Late → Option Late
  unfolding run_late
  run_each zero l = some l
  run_each (suc n) l = run_late l >>= run_each n

-- A request with its method and the bytes of its answer.
pub record Request : Type 0 where
  pub meta : MetaData
  pub method : ℕ
  pub answer : Bytes

abbrev pub calls : List Request → List (ℕ × Bytes)
calls [] = []
calls (r ∷ rs) = (r.method, r.meta.content) ∷ calls rs

abbrev pub metas : List Request → List MetaData
metas [] = []
metas (r ∷ rs) = r.meta ∷ metas rs

abbrev pub last_decoded : Option MetaData → List Request → Option MetaData
last_decoded m [] = m
last_decoded m (r ∷ rs) = last_decoded (some r.meta) rs

-- The frames of all answers as responses to one request.
abbrev pub answers_to : Codec → MetaData → List Request → Bytes
answers_to k m [] = []
answers_to k m (r ∷ rs) =
    item_bytes (encode_message k (response_meta m r.answer)) ++ answers_to k m rs

last_decoded-snoc :
    (m : Option MetaData) (rs : List Request) (r : Request)
    → last_decoded m (rs ++ r ∷ []) ≡ some r.meta
last_decoded-snoc m [] r = refl
last_decoded-snoc m (q ∷ rs) r = last_decoded-snoc (some q.meta) rs r

module _ (k : Codec) (meanwhile : Connection → Connection) (s : Service)
    (table : HandlerTable) where
  -- The method is registered, the request parses, and it has this answer.
  pub record IsRequest (r : Request) : Type 0 where
    pub registered : find_method r.meta.identify table ≡ some r.method
    pub parsed : s.parses r.method r.meta.content ≡ true
    pub responds : s.answer r.method r.meta.content ≡ some r.answer

  handle_each-waiting :
      (rs : List Request) (l : Late)
      → All IsRequest rs
      → handle_each k meanwhile s table (metas rs) l
        ≡ some (record l { decoded = last_decoded l.decoded rs; waiting = l.waiting ++ calls rs })
  unfolding handle_each handle_late
  handle_each-waiting [] l h =
      ap (λ w. some (record l { waiting = w })) (sym (append-nil l.waiting))
  handle_each-waiting (r ∷ rs) l (h, hs) =
      let l1 = record l {
        decoded = some r.meta;
        waiting = l.waiting ++ (r.method, r.meta.content) ∷ [];
      } in
      ground (arith, h.registered, h.parsed, handle_each-waiting rs l1 hs)
      ∙ ap (λ w. some (record l { decoded = last_decoded (some r.meta) rs; waiting = w }))
          (append_assoc l.waiting ((r.method, r.meta.content) ∷ []) (calls rs))

  run_each-Took :
      (m : MetaData) (rs : List Request) (l : Late)
      → ((d : Connection) → meanwhile d ≡ d)
      → IsOpen l.connection
      → All IsRequest rs
      → l.decoded ≡ some m
      → l.waiting ≡ calls rs
      → (l' : Late) × (run_each k meanwhile s table (length rs) l ≡ some l')
        × (l'.waiting ≡ [])
        × Took (answers_to k m rs) l.connection l'.connection
  unfolding run_each run_late
  run_each-Took m [] l q o h d w =
      (l, refl, w, record { kept = o; flow = sym (append-nil (stream l.connection)) })
  run_each-Took m (r ∷ rs) l q o (h, hs) d w =
      let (c, e, t) = call_service_method_done-Took k meanwhile m r.answer l.connection q o in
      let (l', es, n, ts) =
        run_each-Took m rs (record l { waiting = calls rs; connection = c }) q t.kept hs d refl in
      (l', ground (arith, d, w, h.responds, e, es), n, Took-trans t ts)

  -- Where the closures of the requests run only after all the requests were read, on an open connection with no other
  -- closure waiting, every answer goes out as a response to the last request.
  pub late-crossed :
      (rs : List Request) (r : Request) (l : Late)
      → ((d : Connection) → meanwhile d ≡ d)
      → IsOpen l.connection
      → All IsRequest (rs ++ r ∷ [])
      → l.waiting ≡ []
      → (l' : Late) × ((handle_each k meanwhile s table (metas (rs ++ r ∷ [])) l
            >>= run_each k meanwhile s table (length (rs ++ r ∷ [])))
          ≡ some l')
        × (l'.waiting ≡ [])
        × Took (answers_to k r.meta (rs ++ r ∷ [])) l.connection l'.connection
  late-crossed rs r l q o h w =
      let all = rs ++ r ∷ [] in
      let l1 = record l {
        decoded = last_decoded l.decoded all;
        waiting = l.waiting ++ calls all;
      } in
      let (l', e, n, t) =
        run_each-Took r.meta all l1 q o h (last_decoded-snoc l.decoded rs r)
          (ap (λ w. w ++ calls all) w) in
      (l', ground (arith, handle_each-waiting all l h, e), n, t)

  -- A closure that runs when the connection is closing, be it before `PushData` or only by `ScheduleWrite`, has a fault
  -- if its response was encoded: the strings are freed twice, or while the queue of the buffers owns them. The
  -- connection is not locked exclusively at either call.
  pub run_late-closing :
      (method : ℕ) (content answer : Bytes) (meta : MetaData) (pair : Bytes × Bytes)
      (rest : List (ℕ × Bytes)) (l : Late)
      → l.waiting ≡ (method, content) ∷ rest
      → l.decoded ≡ some meta
      → s.answer method content ≡ some answer
      → encode_message k (response_meta meta answer) ≡ some pair
      → l.connection.exclusive ≡ false
      → ((d : Connection)
          → ((meanwhile d).status.closing ≡ true) × ((meanwhile d).exclusive ≡ d.exclusive))
      → run_late k meanwhile s table l ≡ none
  unfolding run_late call_service_method_done push_data internal_push_data schedule_write
  run_late-closing method content answer meta pair rest l w d a e x q =
      let c = l.connection in
      let c1 = record c { shared = c.shared + 1 } in
      let c2 = internal_push_data (some pair) c1 in
      ground (
        arith,
        w,
        d,
        a,
        e,
        q c,
        q (record c2 { shared = c2.shared - 1 }),
        q (record c1 { shared = c1.shared - 1 }),
      )

  -- A closure that runs before the next message is decoded does what the service that runs it at once does.
  pub prompt-handle :
      (r : Request) (l : Late)
      → l.waiting ≡ []
      → IsRequest r
      → ((handle_each k meanwhile s table (r.meta ∷ []) l >>= run_late k meanwhile s table)
          >>= λ l'. some (true, l'.connection))
        ≡ handle k meanwhile s (some table) r.meta l.connection
  unfolding handle_each handle_late run_late handle handle_service
  prompt-handle r l w h =
      elim (Option-cases
        (call_service_method_done k meanwhile r.meta (some r.answer) l.connection)) [
          | inl e ↦ ground (arith, w, h.registered, h.parsed, h.responds, e)
          | inr (c, e) ↦ ground (arith, w, h.registered, h.parsed, h.responds, e)
        ]
