-- ===== src/Wire/Plain.antt =====
-- A codec in which the line protocol's theorems are instantiated: decimal digits as `lexical_cast`
-- prints and reads them, and a message as the list of its fields.
use tt3d.Base.{
  ℕ, zero, suc, ◌+◌, ◌-◌, ◌*◌, ◌/◌, ◌%◌, ◌^◌, ◌≤◌, ◌<◌, ◌≡◌, ◌∙◌, refl, arith, true, [], ◌∷◌,
  Option, none, some, length, ◌==◌, ltb, if◌then◌else◌, All, Bool-cases, inl, inr,
}
use tt3d.Wire.{Bytes, Codec, IsCodec, MetaData, MetaType, is_digit, accepts}
use tt3d.Wire.RoundTrip.{IsSendable}

-- The digits of `n` before those in `acc`; one round for each digit.
unfoldable digits : ℕ → ℕ → Bytes → Bytes
digits zero n acc = acc
digits (suc f) n acc =
    let more = digits f (n / 10) ((b'0' + n % 10) ∷ acc) in
    if n / 10 == 0 then (b'0' + n % 10) ∷ acc else more

unfoldable value : ℕ → Bytes → ℕ
value v [] = v
value v (c ∷ s) = value (v * 10 + (c - b'0')) s

value-digits : (f n : ℕ) (acc : Bytes) → n < f → value 0 (digits f n acc) ≡ value n acc
unfolding digits value
value-digits zero n acc h = absurd (omega arith)
value-digits (suc f) n acc h = elim (Bool-cases (n / 10 == 0)) [
  | inl e ↦ rw e (ap_value (ground arith))
  | inr e ↦ rw e (value-digits f (n / 10) _ (ground arith) ∙ ap_value (omega arith))
]
  where
    ap_value : {a b : ℕ} → a ≡ b → value a acc ≡ value b acc
    ap_value p = λ i. value (p i) acc

digits-All :
    (f n : ℕ) (acc : Bytes)
    → All (λ c. is_digit c ≡ true) acc
    → All (λ c. is_digit c ≡ true) (digits f n acc)
unfolding digits
digits-All zero n acc h = h
digits-All (suc f) n acc h = elim (Bool-cases (n / 10 == 0)) [
  | inl e ↦ rw e (digit, h)
  | inr e ↦ rw e (digits-All f (n / 10) ((b'0' + n % 10) ∷ acc) (digit, h))
]
  where
    digit : is_digit (b'0' + n % 10) ≡ true
    digit = ground arith

length-digits : (f n : ℕ) (acc : Bytes) → length acc ≤ length (digits f n acc)
unfolding digits
length-digits zero n acc = omega arith
length-digits (suc f) n acc = ground (arith, length-digits f (n / 10) ((b'0' + n % 10) ∷ acc))

unfoldable pub to_text : ℕ → Bytes
unfolding digits
to_text n = digits (suc n) n []

unfoldable pub to_int : Bytes → Option ℕ
unfolding value
to_int s = if ltb (value 0 s) (2 ^ 31) then some (value 0 s) else none

-- Type, identify, the optional field with its tag, and the content.
unfoldable pub serialize : MetaData → Option Bytes
serialize m = some (
    elim m.type [ MetaType.request ↦ 1 | MetaType.response ↦ 2 ]
    ∷ m.identify
    ∷ elim m.response_identify [ none ↦ 0 | some _ ↦ 1 ]
    ∷ elim m.response_identify [ none ↦ 0 | some r ↦ r ]
    ∷ m.content)

unfoldable pub parse : Bytes → Option MetaData
parse (t ∷ i ∷ b ∷ r ∷ content) = some (record {
  type = if t == 1 then MetaType.request else MetaType.response;
  identify = i;
  response_identify = if b == 0 then none else some r;
  content = content;
})
parse other = none

abbrev pub plain : Codec
plain = record { serialize = serialize; parse = parse; to_text = to_text; to_int = to_int }

parse-serialize : (m : MetaData) (s : Bytes) → serialize m ≡ some s → parse s ≡ some m
unfolding parse serialize
parse-serialize m s e = ground arith

to_int-to_text : (n : ℕ) → n < 2 ^ 31 → to_int (to_text n) ≡ some n
unfolding to_int to_text value
to_int-to_text n h = ground (arith, value-digits (suc n) n [] (omega arith))

to_text_head : (n : ℕ) → 0 < length (to_text n)
unfolding to_text
to_text_head n = ground (arith, length-digits n (n / 10) ((b'0' + n % 10) ∷ []))

pub plain-IsCodec : IsCodec plain
unfolding to_text
plain-IsCodec = record {
  parse-serialize = parse-serialize;
  to_int-to_text = to_int-to_text;
  to_text_digits = λ n. digits-All (suc n) n [] tt;
  to_text_head = to_text_head;
}

pub plain-IsSendable :
    (m : MetaData) → accepts m ≡ true → length m.content + 4 < 2147483647 → IsSendable plain m
unfolding serialize
plain-IsSendable m a h = record {
  bytes = elim (serialize m) [ none ↦ [] | some s ↦ s ];
  serialized = refl;
  some_bytes = omega arith;
  fits = omega (arith, h);
  accepted = a;
}
