-- ===== src/Methods/Serving.antt =====
-- ProtobufConnection.cpp: what `Handle` changes of its connection, and that it ends.
use tt3d.Base.{
  ℕ, ◌≡◌, ◌∙◌, refl, subst, arith, Bool, true, false, Option, none, some, Bool-cases, Option-cases,
  inl, inr,
}
use tt3d.Wire.{Bytes, Codec, MetaData, encode_message}
use tt3d.Raw.{Connection, push_data, schedule_write}
use tt3d.Raw.Like.{Like-refl, Like-trans, push_data-Like, schedule_write-Like}
use tt3d.Raw.Open.{Flags, push_data-takes, schedule_write-takes}
use tt3d.Raw.Handlers.{Like}
use tt3d.Methods.{
  Service, HandlerTable, find_method, response_meta, call_service_method_done, handle_service,
  handle,
}

call_service_method_done-Like :
    (k : Codec) (meanwhile : Connection → Connection) (m : MetaData) (content : Option Bytes)
    (c c' : Connection)
    → ((d : Connection) → Like d (meanwhile d))
    → call_service_method_done k meanwhile m content c ≡ some c'
    → Like c c'
unfolding call_service_method_done
call_service_method_done-Like k meanwhile m none c c' q e = ground (arith, e)
call_service_method_done-Like k meanwhile m (some content) c c' q e =
    let item = encode_message k (response_meta m content) in
    elim (Option-cases (push_data item c)) [
      | inl n ↦ ground (arith, n, e)
      | inr ((pushed, c1), n) ↦ elim (Option-cases (schedule_write (meanwhile c1))) [
        | inl n1 ↦ ground (arith, n, n1, e)
        | inr ((scheduled, c2), n1) ↦ subst (Like c) (same n n1) (
            Like-trans (push_data-Like item c pushed c1 n)
              (Like-trans (q c1) (schedule_write-Like (meanwhile c1) scheduled c2 n1)))
      ]
    ]
  where
    same :
        {pushed scheduled : Bool} {c1 c2 : Connection}
        → push_data (encode_message k (response_meta m content)) c ≡ some (pushed, c1)
        → schedule_write (meanwhile c1) ≡ some (scheduled, c2)
        → c2 ≡ c'
    same n n1 = ground (arith, n, n1, e)

pub Like-Flags : {c c' : Connection} → Like c c' → Flags c → Flags c'
Like-Flags l f = (l.closing ∙ f.0, l.impl ∙ f.1, l.exclusive ∙ f.2, l.socket ∙ f.3)

module _ (k : Codec) (meanwhile : Connection → Connection) (s : Service) where
  handle_service-Like :
      (method : ℕ) (m : MetaData) (c c' : Connection)
      → ((d : Connection) → Like d (meanwhile d))
      → handle_service k meanwhile s method m c ≡ some c'
      → Like c c'
  unfolding handle_service
  handle_service-Like method m c c' q e = elim (Bool-cases (s.parses method m.content)) [
    | inl p ↦
        call_service_method_done-Like k meanwhile m (s.answer method m.content) c c' q
          (ground (arith, p, e))
    | inr p ↦ subst (Like c) (ground (arith, p, e)) (Like-refl c)
  ]

  pub handle-Like :
      (t : Option HandlerTable) (m : MetaData) (c : Connection) (b : Bool) (c' : Connection)
      → ((d : Connection) → Like d (meanwhile d))
      → handle k meanwhile s t m c ≡ some (b, c')
      → Like c c'
  unfolding handle
  handle-Like none m c b c' q e = subst (Like c) (ground (arith, e)) (Like-refl c)
  handle-Like (some t) m c b c' q e = elim (Option-cases (find_method m.identify t)) [
    | inl n ↦ subst (Like c) (ground (arith, n, e)) (Like-refl c)
    | inr (method, n) ↦ elim (Option-cases (handle_service k meanwhile s method m c)) [
      | inl f ↦ ground (arith, n, f, e)
      | inr (c1, f) ↦ handle_service-Like method m c c' q (ground (arith, n, f, e))
    ]
  ]

  done_takes :
      (m : MetaData) (content : Bytes) (c : Connection)
      → ((d : Connection) → Like d (meanwhile d))
      → Flags c
      → (c' : Connection) × (call_service_method_done k meanwhile m (some content) c ≡ some c')
  unfolding call_service_method_done
  done_takes m content c q f =
      let (c1, e1, f1) = push_data-takes (encode_message k (response_meta m content)) c f in
      let (c2, e2, f2) = schedule_write-takes (meanwhile c1) (Like-Flags (q c1) f1) in
      (c2, ground (arith, e1, e2))

  pub handle-ends :
      (t : Option HandlerTable) (m : MetaData) (c : Connection)
      → ((d : Connection) → Like d (meanwhile d))
      → ((method : ℕ) (request : Bytes)
          → (content : Bytes) × (s.answer method request ≡ some content))
      → Flags c
      → (r : Bool × Connection) × (handle k meanwhile s t m c ≡ some r)
  unfolding handle handle_service
  handle-ends none m c q a f = ((false, c), refl)
  handle-ends (some t) m c q a f = elim (Option-cases (find_method m.identify t)) [
    | inl n ↦ ((false, c), ground (arith, n))
    | inr (method, n) ↦ elim (Bool-cases (s.parses method m.content)) [
      | inr p ↦ ((true, c), ground (arith, n, p))
      | inl p ↦
          let (content, e) = a method m.content in
          let (c', g) = done_takes m content c q f in ((true, c'), ground (arith, n, p, e, g))
    ]
  ]
