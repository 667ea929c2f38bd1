-- ===== src/Buffers/Consume.antt =====
-- SharedConstBuffers.hpp: the queue is a sequence of bytes; `push` adds at its end and `consume` takes
-- from its front.
use tt3d.Base.{
  ℕ, zero, suc, ◌+◌, ◌-◌, ◌≤◌, ◌<◌, ◌≡◌, ◌∙◌, refl, sym, ap, arith, true, List, [], ◌∷◌, ◌++◌,
  length, take, drop, ltb, ◌==◌, append-nil, append_assoc, length-append, length-drop, Bool-cases,
  inl, inr,
}
use tt3d.Buffers.{Bytes, SharedConstBuffers, push, empty, size, consume, consume_from, size_from}

abbrev pub concat : List Bytes → Bytes
concat [] = []
concat (s ∷ ss) = s ++ concat ss

-- The bytes still to be written.
unfoldable pub contents : SharedConstBuffers → Bytes
contents b = concat (drop b.start b.buffer)

pub record IsQueue (b : SharedConstBuffers) : Type 0 where
  pub within : b.start ≤ length b.buffer

concat-append : (xs ys : List Bytes) → concat (xs ++ ys) ≡ concat xs ++ concat ys
concat-append [] ys = refl
concat-append (x ∷ xs) ys = rw (concat-append xs ys, append_assoc)

drop-append : (n : ℕ) (xs ys : List Bytes) → n ≤ length xs → drop n (xs ++ ys) ≡ drop n xs ++ ys
drop-append zero xs ys h = refl
drop-append (suc n) [] ys h = absurd (omega arith)
drop-append (suc n) (x ∷ xs) ys h = drop-append n xs ys (omega arith)

-- `push` adds the string's bytes at the end of a queue in order, and leaves it in order.
pub contents-push :
    (b : SharedConstBuffers) (s : Bytes)
    → IsQueue b
    → (contents (push b s) ≡ contents b ++ s) × IsQueue (push b s)
unfolding contents push
contents-push b s q = (
  rw (drop-append b.start b.buffer (s ∷ []) q.within, concat-append, append-nil),
  omega (arith, length-append b.buffer (s ∷ [])),
)

zero_sub : (i : ℕ) → i - i ≡ 0
zero_sub i = omega arith

drop_nil {ℓ} : {A : Type ℓ} (n : ℕ) → drop {A = A} n [] ≡ []
drop_nil zero = refl
drop_nil (suc n) = refl

drop_all : (n : ℕ) (xs : List Bytes) → n ≡ length xs → drop n xs ≡ []
drop_all zero [] h = refl
drop_all zero (x ∷ xs) h = absurd (omega arith)
drop_all (suc n) [] h = refl
drop_all (suc n) (x ∷ xs) h = drop_all n xs (omega arith)

drop_past : (n : ℕ) (xs ys : Bytes) → length xs ≤ n → drop n (xs ++ ys) ≡ drop (n - length xs) ys
drop_past n [] ys h = ap (λ t. drop t ys) (omega arith)
drop_past zero (x ∷ xs) ys h = absurd (omega arith)
drop_past (suc n) (x ∷ xs) ys h =
    drop_past n xs ys (omega arith) ∙ ap (λ t. drop t ys) (omega arith)

drop_inside : (n : ℕ) (xs ys : Bytes) → n ≤ length xs → drop n (xs ++ ys) ≡ drop n xs ++ ys
drop_inside zero xs ys h = refl
drop_inside (suc n) [] ys h = absurd (omega arith)
drop_inside (suc n) (x ∷ xs) ys h = drop_inside n xs ys (omega arith)

-- What the loop makes of the buffers from index `i` on.
record Consumes (bs : List Bytes) (i n : ℕ) (r : List Bytes × ℕ) : Type 0 where
  same_length : length r.0 ≡ length bs
  from : i ≤ r.1
  upto : r.1 ≤ i + length bs
  rest : concat (drop (r.1 - i) r.0) ≡ drop n (concat bs)

drop_pos : (k : ℕ) (x : Bytes) (xs : List Bytes) → 0 < k → drop k (x ∷ xs) ≡ drop (k - 1) xs
drop_pos zero x xs h = absurd (omega arith)
drop_pos (suc k) x xs h = ap (λ t. drop t xs) (omega arith)

skip_whole :
    (b : Bytes) (bs : List Bytes) (i n : ℕ) (r : List Bytes × ℕ)
    → length b < n
    → Consumes bs (i + 1) (n - length b) r
    → Consumes (b ∷ bs) i n (b ∷ r.0, r.1)
skip_whole b bs i n r h c = record {
  same_length = ap suc c.same_length;
  from = omega (arith, c.from);
  upto = omega (arith, c.upto);
  rest =
      ap concat (drop_pos (r.1 - i) b r.0 (omega (arith, c.from)))
      ∙ ap (λ t. concat (drop t r.0)) (omega (arith, c.from))
      ∙ c.rest
      ∙ sym (drop_past n b (concat bs) (omega arith));
}

take_whole :
    (b : Bytes) (bs : List Bytes) (i n : ℕ) → n ≡ length b → Consumes (b ∷ bs) i n (b ∷ bs, i + 1)
take_whole b bs i n e = record {
  same_length = refl;
  from = omega arith;
  upto = omega arith;
  rest =
      ap (λ t. concat (drop t (b ∷ bs))) one
      ∙ ap (λ t. drop t (concat bs)) none_left
      ∙ sym (drop_past n b (concat bs) (omega arith));
}
  where
    one : (i + 1) - i ≡ 1
    one = omega arith

    none_left : 0 ≡ n - length b
    none_left = omega arith

take_part :
    (b : Bytes) (bs : List Bytes) (i n : ℕ)
    → n < length b
    → Consumes (b ∷ bs) i n (drop n b ∷ bs, i)
take_part b bs i n h = record {
  same_length = refl;
  from = omega arith;
  upto = omega arith;
  rest =
      ap (λ t. concat (drop t (drop n b ∷ bs))) (zero_sub i)
      ∙ sym (drop_inside n b (concat bs) (omega arith));
}

consume_from-Consumes : (bs : List Bytes) (i n : ℕ) → Consumes bs i n (consume_from bs i n)
unfolding consume_from
consume_from-Consumes [] i n = record {
  same_length = refl;
  from = omega arith;
  upto = omega arith;
  rest = ap concat (drop_nil (i - i)) ∙ sym (drop_nil n);
}
consume_from-Consumes (b ∷ bs) i n = elim (Bool-cases (ltb (length b) n)) [
  | inl e ↦
      rw e (skip_whole b bs i n _ (ground arith) (consume_from-Consumes bs (i + 1) (n - length b)))
  | inr e ↦ elim (Bool-cases (n == length b)) [
    | inl q ↦ rw (e, q) (take_whole b bs i n (ground arith))
    | inr q ↦ rw (e, q) (take_part b bs i n (ground arith))
  ]
]

drop-take-append :
    (k m : ℕ) (xs ys : List Bytes)
    → k ≤ m
    → k ≤ length xs
    → drop m (take k xs ++ ys) ≡ drop (m - k) ys
drop-take-append zero m xs ys h l = ap (λ t. drop t ys) (omega arith)
drop-take-append (suc k) zero xs ys h l = absurd (omega arith)
drop-take-append (suc k) (suc m) [] ys h l = absurd (omega arith)
drop-take-append (suc k) (suc m) (x ∷ xs) ys h l =
    drop-take-append k m xs ys (omega arith) (omega arith) ∙ ap (λ t. drop t ys) (omega arith)

length-take_le : (k : ℕ) (xs : List Bytes) → k ≤ length xs → length (take k xs) ≡ k
length-take_le zero xs h = refl
length-take_le (suc k) [] h = absurd (omega arith)
length-take_le (suc k) (x ∷ xs) h = ap suc (length-take_le k xs (omega arith))

-- `consume` takes `n` bytes from the front of a queue in order, or all if there are fewer, and leaves
-- it in order.
pub contents-consume :
    (b : SharedConstBuffers) (n : ℕ)
    → IsQueue b
    → (contents (consume b n) ≡ drop n (contents b)) × IsQueue (consume b n)
unfolding contents consume
contents-consume b n q =
    let c = consume_from-Consumes (drop b.start b.buffer) b.start n in
    let r = consume_from (drop b.start b.buffer) b.start n in
    (
      ap concat (drop-take-append b.start r.1 b.buffer r.0 c.from q.within) ∙ c.rest,
      omega (
        arith,
        c.upto,
        c.same_length,
        q.within,
        length-append (take b.start b.buffer) r.0,
        length-take_le b.start b.buffer q.within,
        length-drop b.start b.buffer,
      ),
    )

size_from_lem : (bs : List Bytes) (s : ℕ) → size_from bs s ≡ s + length (concat bs)
unfolding size_from
size_from_lem [] s = omega arith
size_from_lem (b ∷ bs) s =
    omega (arith, size_from_lem bs (s + length b), length-append b (concat bs))

-- `size` is the number of bytes that the queue holds.
pub size-contents : (b : SharedConstBuffers) → size b ≡ length (contents b)
unfolding size contents
size-contents b = size_from_lem (drop b.start b.buffer) 0 ∙ omega arith

-- An empty queue has no bytes.
pub contents-empty : (b : SharedConstBuffers) → empty b ≡ true → contents b ≡ []
unfolding empty contents
contents-empty b e = ap concat (drop_all b.start b.buffer (ground arith))
