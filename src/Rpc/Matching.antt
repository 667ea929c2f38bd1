-- ===== src/Rpc/Matching.antt =====
-- RawProtobufConnection.cpp: which handler of the table a response finds, where several calls wait.
use tt3d.Base.{
  ℕ, ◌≡◌, ◌∙◌, refl, ap, subst, arith, Bool, true, false, List, [], ◌∷◌, none, some, ◌==◌,
  Bool-cases, inl, inr,
}
use tt3d.Base.Members.{find}
use tt3d.Wire.{Bytes, MetaData, MetaType}
use tt3d.Rpc.{Call, Client, Table, keys, lookup, remove, answered, call_method_callback}
use tt3d.Rpc.Exchange.{Exchange, entries, Apart}

-- A later identify is another one.
other : (id j : ℕ) (ids : List ℕ) → find id ids ≡ true → find j ids ≡ false → (id == j) ≡ false
other id j ids h n = elim (Bool-cases (id == j)) [
  | inl e ↦ absurd (clash (subst (λ i. find i ids ≡ true) (same e) h) n)
  | inr e ↦ e
]
  where
    same : (id == j) ≡ true → id ≡ j
    same e = ground arith

    clash : {b : Bool} → b ≡ true → b ≡ false → ⊥
    clash p q = cc

lookup-entries :
    (id : ℕ) (sent : List (ℕ × Exchange)) (t : Table)
    → Apart sent t
    → find id (keys t) ≡ true
    → (lookup id (entries sent t) ≡ lookup id t)
      × (remove id (entries sent t) ≡ entries sent (remove id t))
unfolding lookup remove find
lookup-entries id [] t a h = (refl, refl)
lookup-entries id ((j, x) ∷ sent) t (n, a) h =
    let e = other id j (keys t) h n in
    let (l, r) = lookup-entries id sent ((j, x.call) ∷ t) a (ground (arith, h, e)) in
    (l ∙ ground (arith, e), r ∙ ap (entries sent) (ground (arith, e)))

-- With fewer entries in the table the identifies are apart all the more.
pub Apart-fewer :
    (sent : List (ℕ × Exchange)) (t u : Table)
    → ((j : ℕ) → find j (keys t) ≡ false → find j (keys u) ≡ false)
    → Apart sent t
    → Apart sent u
unfolding find
Apart-fewer [] t u h a = tt
Apart-fewer ((id, x) ∷ sent) t u h (n, a) = (
  h id n,
  Apart-fewer sent ((id, x.call) ∷ t) ((id, x.call) ∷ u) (λ j f. ground (arith, f, h j)) a,
)

-- The response to the earliest of the calls.
pub answered_first :
    (parses : ℕ → Bytes → Bool) (id : ℕ) (call : Call) (content : Bytes)
    (sent : List (ℕ × Exchange)) (t : Table) (s : Client)
    → s.table ≡ entries sent ((id, call) ∷ t)
    → Apart sent ((id, call) ∷ t)
    → let m : MetaData = record {
      type = MetaType.response;
      identify = id;
      response_identify = none;
      content = content;
    } in
      answered parses m (lookup id s.table) s ≡ (
        true,
        record s {
          table = entries sent t;
          world = call_method_callback parses (some m) call s.world;
        },
      )
unfolding answered lookup remove find
answered_first parses id call content sent t s e a =
    let (l, r) = lookup-entries id sent ((id, call) ∷ t) a (ground arith) in
    let l' : lookup id s.table ≡ some call = ap (lookup id) e ∙ l ∙ ground arith in
    let r' : remove id s.table ≡ entries sent t =
      ap (remove id) e ∙ r ∙ ap (entries sent) (ground arith) in
    ground (arith, l', r')
