-- ===== src/Rpc/Reply.antt =====
-- RawProtobufConnection.cpp: `Handle` and `CallMethodCallback` where the response to a call is read.
use tt3d.Base.{
  ℕ, ◌≡◌, ◌∙◌, refl, ap, sym, arith, Bool, true, [], ◌∷◌, ◌++◌, some, if◌then◌else◌, append-nil,
  Bool-cases, Option-cases, inl, inr,
}
use tt3d.Wire.{Bytes, MetaData}
use tt3d.Rpc.{notify, Call, World, Client, lookup, remove, call_method_callback, answered}

-- What the client has when the response was read: nobody waits for it any more, the response message is filled
-- in, the closure, if there is one, was run, and who waits on the controller is notified.
pub record Replied (answer : Bytes) (call : Call) (s s' : Client) : Type 0 where
  pub table : s'.table ≡ s.table
  pub filled : s'.world.filled ≡ s.world.filled ++ (call.number, answer) ∷ []
  pub ran : s'.world.ran ≡ s.world.ran ++ (if call.done then call.number ∷ [] else [])
  pub controllers :
      (n : ℕ) → call.controller ≡ some n → s'.world.controllers n ≡ notify (s.world.controllers n)

pub callback-ran :
    (parses : ℕ → Bytes → Bool) (meta : MetaData) (call : Call) (w : World)
    → parses call.number meta.content ≡ true
    → ((call_method_callback parses (some meta) call w).filled
        ≡ w.filled ++ (call.number, meta.content) ∷ [])
      × ((call_method_callback parses (some meta) call w).ran
          ≡ w.ran ++ (if call.done then call.number ∷ [] else []))
unfolding call_method_callback
callback-ran parses meta call w p = elim (Option-cases call.controller) [
  | inl e ↦ elim (Bool-cases call.done) [
    | inl d ↦ rw (p, e, d) (refl, refl)
    | inr d ↦ rw (p, e, d) (refl, sym (append-nil w.ran))
  ]
  | inr (n, e) ↦ elim (Bool-cases call.done) [
    | inl d ↦ rw (p, e, d) (refl, refl)
    | inr d ↦ rw (p, e, d) (refl, sym (append-nil w.ran))
  ]
]

callback-controllers :
    (parses : ℕ → Bytes → Bool) (meta : MetaData) (call : Call) (w : World) (n : ℕ)
    → parses call.number meta.content ≡ true
    → call.controller ≡ some n
    → (call_method_callback parses (some meta) call w).controllers n ≡ notify (w.controllers n)
unfolding call_method_callback
callback-controllers parses meta call w n p e = elim (Bool-cases call.done) [
  | inl d ↦ rw (p, e, d) (ground arith)
  | inr d ↦ rw (p, e, d) (ground arith)
]

pub answered-Replied :
    (parses : ℕ → Bytes → Bool) (id : ℕ) (meta : MetaData) (call : Call) (s s1 : Client)
    → meta.identify ≡ id
    → s1.table ≡ (id, call) ∷ s.table
    → s1.world ≡ s.world
    → parses call.number meta.content ≡ true
    → (s' : Client) × (answered parses meta (lookup meta.identify s1.table) s1 ≡ (true, s'))
      × Replied meta.content call s s'
unfolding answered lookup remove
answered-Replied parses id meta call s s1 i t w p =
    let (f, r) = callback-ran parses meta call s1.world p in
    (
      record s1 {
        table = remove meta.identify s1.table;
        world = call_method_callback parses (some meta) call s1.world;
      },
      ground (arith, i, t),
      record {
        table = ground (arith, i, t);
        filled = f ∙ ap (λ v. v.filled ++ (call.number, meta.content) ∷ []) w;
        ran = r ∙ ap (λ v. v.ran ++ (if call.done then call.number ∷ [] else [])) w;
        controllers = λ n e.
            callback-controllers parses meta call s1.world n p e
            ∙ ap (λ v. notify (v.controllers n)) w;
      },
    )
