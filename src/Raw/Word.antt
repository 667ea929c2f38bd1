-- ===== src/Raw/Word.antt =====
-- `RawConnectionStatus` of RawConnection.hpp as the word that it is: its bits, and the atomic operations on it. The rest of
-- the model has a field for each bit.
use tt3d.Base.{
  ◌&&◌, arith, ℕ, ◌≡◌, ◌∙◌, refl, ap, Bool, true, false, not, ◌||◌, sym, subst, List, [], ◌∷◌, ◌==◌,
}
use Prim.Native.Nat.{bit_or, bit_and}
use tt3d.Raw.State.{Status, idle, is_idle}

-- READING, WRITTING and CLOSING, and the complements of the first two as an `int` of 32 bits.
abbrev pub reading_bit : ℕ
reading_bit = 1

abbrev pub writing_bit : ℕ
writing_bit = 2

abbrev pub closing_bit : ℕ
closing_bit = 4

abbrev pub not_reading : ℕ
not_reading = 4294967294

abbrev pub not_writing : ℕ
not_writing = 4294967293

-- The calls that change the status.
pub data StatusCall : Type 0 where
  reading_set writing_set reading_cleared writing_cleared closing_set : StatusCall

-- Each is one atomic operation, so that calls of several threads come one after the other.
pub change : StatusCall → ℕ → ℕ
change reading_set w = bit_or w reading_bit
change writing_set w = bit_or w writing_bit
change reading_cleared w = bit_and w not_reading
change writing_cleared w = bit_and w not_writing
change closing_set w = bit_or w closing_bit

pub changes : List StatusCall → ℕ → ℕ
unfolding change
changes [] w = w
changes (o ∷ os) w = changes os (change o w)

-- `IsReading`, `IsWriting`, `IsClosing` and `IsIdle`.
pub reads_word : ℕ → Bool
reads_word w = not (bit_and w reading_bit == 0)

pub writes_word : ℕ → Bool
writes_word w = not (bit_and w writing_bit == 0)

pub closes_word : ℕ → Bool
closes_word w = not (bit_and w closing_bit == 0)

pub idles_word : ℕ → Bool
idles_word w = w == 0

-- The same calls on the fields.
abbrev pub flag : StatusCall → Status → Status
flag reading_set s = record s { reading = true }
flag writing_set s = record s { writing = true }
flag reading_cleared s = record s { reading = false }
flag writing_cleared s = record s { writing = false }
flag closing_set s = record s { closing = true }

abbrev pub flags : List StatusCall → Status → Status
flags [] s = s
flags (o ∷ os) s = flags os (flag o s)

abbrev pub encode : Bool → Bool → Bool → ℕ
encode false false false = 0
encode true false false = 1
encode false true false = 2
encode true true false = 3
encode false false true = 4
encode true false true = 5
encode false true true = 6
encode true true true = 7

abbrev pub word_of : Status → ℕ
word_of s = encode s.reading s.writing s.closing

-- What the queries see of a word.
pub record Shows (w : ℕ) (s : Status) : Type 0 where
  pub word : w ≡ word_of s
  pub reading : reads_word w ≡ s.reading
  pub writing : writes_word w ≡ s.writing
  pub closing : closes_word w ≡ s.closing
  pub idle : idles_word w ≡ is_idle s

-- A test of three bits at all eight places.
every_bits : (Bool → Bool → Bool → Bool) → Bool
every_bits p =
    p false false false
    && p true false false
    && p false true false
    && p true true false
    && p false false true
    && p true false true
    && p false true true
    && p true true true

every_bits_lem :
    (p : Bool → Bool → Bool → Bool) → every_bits p ≡ true → (r w c : Bool) → p r w c ≡ true
unfolding every_bits
every_bits_lem p e false false false = ground (arith, e)
every_bits_lem p e true false false = ground (arith, e)
every_bits_lem p e false true false = ground (arith, e)
every_bits_lem p e true true false = ground (arith, e)
every_bits_lem p e false false true = ground (arith, e)
every_bits_lem p e true false true = ground (arith, e)
every_bits_lem p e false true true = ground (arith, e)
every_bits_lem p e true true true = ground (arith, e)

same_words :
    (f g : Bool → Bool → Bool → ℕ)
    → every_bits (λ r w c. f r w c == g r w c) ≡ true
    → (r w c : Bool) → f r w c ≡ g r w c
same_words f g e r w c = ground (arith, every_bits_lem (λ r w c. f r w c == g r w c) e r w c)

agree : Bool → Bool → Bool
agree true b = b
agree false b = not b

same_if_agree : (a b : Bool) → agree a b ≡ true → a ≡ b
unfolding agree
same_if_agree true b e = sym e
same_if_agree false true e = e
same_if_agree false false e = refl

same_flags :
    (f g : Bool → Bool → Bool → Bool)
    → every_bits (λ r w c. agree (f r w c) (g r w c)) ≡ true
    → (r w c : Bool) → f r w c ≡ g r w c
same_flags f g e r w c =
    same_if_agree (f r w c) (g r w c) (every_bits_lem (λ r w c. agree (f r w c) (g r w c)) e r w c)

word-Shows : (s : Status) → Shows (word_of s) s
unfolding reads_word writes_word closes_word idles_word every_bits agree
word-Shows s =
    let r = s.reading in
    let w = s.writing in
    let c = s.closing in
    record {
      word = refl;
      reading = same_flags (λ r w c. reads_word (encode r w c)) (λ r w c. r) refl r w c;
      writing = same_flags (λ r w c. writes_word (encode r w c)) (λ r w c. w) refl r w c;
      closing = same_flags (λ r w c. closes_word (encode r w c)) (λ r w c. c) refl r w c;
      idle =
          same_flags (λ r w c. idles_word (encode r w c)) (λ r w c. not (r || w || c)) refl r w c;
    }

encoded : StatusCall → Bool → Bool → Bool → ℕ
encoded o r w c = word_of (flag o (record { reading = r; writing = w; closing = c }))

change-encoded : (o : StatusCall) (r w c : Bool) → change o (encode r w c) ≡ encoded o r w c
unfolding change encoded every_bits
change-encoded reading_set =
    same_words (λ r w c. change reading_set (encode r w c)) (encoded reading_set) refl
change-encoded writing_set =
    same_words (λ r w c. change writing_set (encode r w c)) (encoded writing_set) refl
change-encoded reading_cleared =
    same_words (λ r w c. change reading_cleared (encode r w c)) (encoded reading_cleared) refl
change-encoded writing_cleared =
    same_words (λ r w c. change writing_cleared (encode r w c)) (encoded writing_cleared) refl
change-encoded closing_set =
    same_words (λ r w c. change closing_set (encode r w c)) (encoded closing_set) refl

change-word_of : (o : StatusCall) (s : Status) → change o (word_of s) ≡ word_of (flag o s)
unfolding encoded
change-word_of o s = change-encoded o s.reading s.writing s.closing

changes-word_of :
    (os : List StatusCall) (s : Status) → changes os (word_of s) ≡ word_of (flags os s)
unfolding changes
changes-word_of [] s = refl
changes-word_of (o ∷ os) s = ap (changes os) (change-word_of o s) ∙ changes-word_of os (flag o s)

-- The bits of the status are independent flags: after any sequence of its atomic operations from the idle
-- word, the word is that of the same assignments to three flags, and each query yields its flag.
pub changes-Shows : (os : List StatusCall) → Shows (changes os 0) (flags os idle)
changes-Shows os =
    subst (λ w. Shows w (flags os idle)) (sym (changes-word_of os idle))
      (word-Shows (flags os idle))
