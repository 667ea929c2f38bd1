-- ===== src/Rpc/Fresh.antt =====
-- RawProtobufConnection.cpp, `CallMethod`: the search for an identify that no call waits for.
use tt3d.Base.{
  ℕ, zero, suc, ◌+◌, ◌*◌, ◌%◌, ◌<◌, ◌≤◌, ◌≡◌, ◌≢◌, ◌∙◌, refl, ap, sym, arith, true, false, List,
  Option, some, length, Bool-cases, inl, inr,
}
use tt3d.Base.Members.{find, erase, length-erase, find-erase}
use tt3d.Rpc.{fresh_identify}

-- How far `k` rounds move the identify.
gap : ℕ → ℕ → ℕ
gap zero seq = 0
gap (suc k) seq = (seq + 1) + gap k (seq + 1)

gap-le : (k seq : ℕ) → seq + k < 2147483648 → gap k seq ≤ k * 2147483648
unfolding gap
gap-le zero seq h = omega arith
gap-le (suc k) seq h = omega (arith, gap-le k (seq + 1) (omega arith))

-- The search ends with an identify that is not in the list.
pub record Found (seq : ℕ) (ids : List ℕ) (o : Option (ℕ × ℕ)) : Type 0 where
  pub last : ℕ
  pub id : ℕ
  pub ends : o ≡ some (last, id)
  pub free : find id ids ≡ false
  pub small : id < 18446744073709551616
  pub counted : seq ≤ last

-- The identify after `k` rounds.
abbrev at_round : ℕ → ℕ → ℕ → ℕ
at_round k seq id = (id + gap k seq) % 18446744073709551616

at_round-suc :
    (k seq id : ℕ)
    → at_round k (seq + 1) ((id + (seq + 1)) % 18446744073709551616) ≡ at_round (suc k) seq id
unfolding gap
at_round-suc k seq id = omega arith

at_round-ne :
    (k seq id : ℕ)
    → id < 18446744073709551616
    → seq + suc k < 2147483648
    → at_round (suc k) seq id ≢ id
unfolding gap
at_round-ne k seq id small h = λ e. omega (arith, gap-le k (seq + 1) (omega arith), e)

at_round-zero : (seq id : ℕ) → id < 18446744073709551616 → at_round 0 seq id ≡ id
unfolding gap
at_round-zero seq id h = omega arith

later : {seq : ℕ} {ids : List ℕ} {o : Option (ℕ × ℕ)} → Found (seq + 1) ids o → Found seq ids o
later f = record {
  last = f.last;
  id = f.id;
  ends = f.ends;
  free = f.free;
  small = f.small;
  counted = omega (arith, f.counted);
}

-- `left` are the identifies that a later round may still meet: each round that goes on takes one away.
search_lem :
    (n seq id : ℕ) (ids left : List ℕ)
    → id < 18446744073709551616
    → seq + n < 2147483648
    → length left < n
    → ((k : ℕ) → k < n → find (at_round k seq id) ids ≡ find (at_round k seq id) left)
    → Found seq ids (fresh_identify n seq id ids)
unfolding fresh_identify
search_lem zero seq id ids left small b l same = absurd (omega arith)
search_lem (suc n) seq id ids left small b l same = elim (Bool-cases (find id ids)) [
  | inr e ↦
      rw e (record {
        last = seq;
        id = id;
        ends = refl;
        free = e;
        small = small;
        counted = omega arith;
      })
  | inl e ↦
      let here : find id left ≡ true =
        ap (λ t. find t left) (sym (at_round-zero seq id small))
        ∙ sym (same 0 (omega arith))
        ∙ ap (λ t. find t ids) (at_round-zero seq id small)
        ∙ e in
      rw e (
        later (
          search_lem n (seq + 1) ((id + (seq + 1)) % 18446744073709551616) ids (erase id left)
            (omega arith) (omega arith) (omega (arith, length-erase id left here, l))
            (λ k h.
              ap (λ t. find t ids) (at_round-suc k seq id)
              ∙ same (suc k) (omega arith)
              ∙ sym (
                  find-erase (at_round (suc k) seq id) id left
                    (at_round-ne k seq id small (omega arith)))
              ∙ ap (λ t. find t (erase id left)) (sym (at_round-suc k seq id)))))
]

-- The search of `CallMethod` always ends, after at most one round more than there are calls waiting: with an
-- identify of 64 bits that no call waits for, as long as `seq` stays an `int`.
pub fresh_identify_ends :
    (seq id : ℕ) (ids : List ℕ)
    → id < 18446744073709551616
    → seq + (length ids + 1) < 2147483648
    → Found seq ids (fresh_identify (length ids + 1) seq id ids)
fresh_identify_ends seq id ids small b =
    search_lem (length ids + 1) seq id ids ids small b (omega arith) (λ k h. refl)

-- The counter goes up by one with each round.
pub fresh_identify-last :
    (n seq id : ℕ) (ids : List ℕ) (last found : ℕ)
    → fresh_identify n seq id ids ≡ some (last, found)
    → last < seq + n
unfolding fresh_identify
fresh_identify-last zero seq id ids last found e = ground (arith, e)
fresh_identify-last (suc n) seq id ids last found e = ground (
  arith,
  e,
  fresh_identify-last n (seq + 1) ((id + (seq + 1)) % 18446744073709551616) ids last found,
)
