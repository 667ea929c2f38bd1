-- ===== src/Wire.antt =====
-- The line protocol `length:content`: src/core/network/RawProtobufConnection.hpp and .cpp
-- (EncodeMessage, ProtobufDecoder), src/core/network/Buffer.hpp, the loop
-- `RawConnectionImpl::Decode` of src/core/network/RawConnection.hpp, and proto/meta.proto.
-- A byte is a number, a message's bytes are a list. The calls of the protobuf runtime and of
-- `boost::lexical_cast` are the section's parameter, a `Codec`.
pub mod Feed
pub mod Stream
pub mod RoundTrip
pub mod Bounds
pub mod World
pub mod Plain
mod Tests
use tt3d.Base.{
  ℕ, zero, suc, ◌+◌, ◌-◌, ◌^◌, ◌<◌, ◌≤◌, ◌≡◌, Bool, true, false, not, ◌&&◌, List, [], ◌∷◌, ◌++◌,
  Option, none, some, length, leb, ◌==◌, if◌then◌else◌, All,
}

abbrev pub Bytes : Type 0
Bytes = List ℕ

-- Buffer.hpp: the bytes written, their number and the capacity.
pub record Buffer : Type 0 where
  pub content : Bytes
  pub size : ℕ
  pub capacity : ℕ

abbrev pub cleared : Buffer
cleared = record { content = []; size = 0; capacity = 0 }

abbrev pub reserve : ℕ → Buffer
reserve capacity = record { content = []; size = 0; capacity = capacity }

abbrev pub push_back : Buffer → ℕ → Buffer
push_back b t = record b { content = b.content ++ t ∷ []; size = b.size + 1 }

-- `capacity_ - size_ == 0`
abbrev pub full : Buffer → Bool
full b = b.capacity == b.size

-- meta.proto
pub data MetaType : Type 0 where
  request response : MetaType

pub record MetaData : Type 0 where
  pub type : MetaType
  pub identify : ℕ
  pub response_identify : Option ℕ
  pub content : Bytes

-- What is called outside the repository, with what the calls promise: `SerializeToString` and
-- `ParseFromArray` of the generated class, and `lexical_cast` between numbers and decimal digits.
pub record Codec : Type 0 where
  pub serialize : MetaData → Option Bytes
  pub parse : Bytes → Option MetaData
  pub to_text : ℕ → Bytes
  pub to_int : Bytes → Option ℕ

-- `isdigit`
abbrev pub is_digit : ℕ → Bool
is_digit c = leb b'0' c && leb c b'9'

-- What the protocol relies on.
pub record IsCodec (k : Codec) : Type 0 where
  pub parse-serialize : (m : MetaData) (s : Bytes) → k.serialize m ≡ some s → k.parse s ≡ some m
  pub to_int-to_text : (n : ℕ) → n < 2 ^ 31 → k.to_int (k.to_text n) ≡ some n
  pub to_text_digits : (n : ℕ) → All (λ c. is_digit c ≡ true) (k.to_text n)
  pub to_text_head : (n : ℕ) → 0 < length (k.to_text n)

pub data State : Type 0 where
  start length' content' end : State

pub record Decoder : Type 0 where
  pub state : State
  pub length_store : Bytes
  pub length_ : ℕ
  pub content_ : Buffer
  pub meta : Option MetaData

unfoldable pub new_decoder : Decoder
new_decoder = record {
  state = State.start;
  length_store = [];
  length_ = 0;
  content_ = cleared;
  meta = none;
}

abbrev pub reset : Decoder → Decoder
reset d = record d { state = State.start; length_store = []; length_ = 0; content_ = cleared }

-- The results of `Consume`: true, false, indeterminate, and an exception: `lexical_cast` refuses the length, or
-- `Buffer::reserve` asks `new` for more than an `int` counts, as it adds 1 to the capacity.
pub data Verdict : Type 0 where
  complete invalid more thrown : Verdict

-- The tests on a message that has been parsed.
abbrev pub is_request : MetaType → Bool
is_request MetaType.request = true
is_request MetaType.response = false

abbrev pub is_some : {A : Type 0} → Option A → Bool
is_some none = false
is_some (some a) = true

abbrev pub is_nil : {A : Type 0} → List A → Bool
is_nil [] = true
is_nil (x ∷ xs) = false

abbrev pub accepts : MetaData → Bool
accepts m = not (is_request m.type && not (is_some m.response_identify)) && not (is_nil m.content)

module _ (k : Codec) where
  -- `EncodeMessage`: the header and the content, or the pair of null pointers.
  unfoldable pub encode_message : MetaData → Option (Bytes × Bytes)
  encode_message m = elim (k.serialize m) [
    | none ↦ none
    | some content ↦ some (k.to_text (length content) ++ b':' ∷ [], content)
  ]

  unfoldable pub consume_start : Decoder → ℕ → Verdict × Decoder
  consume_start d c =
      if is_digit c
      then (more, record d { state = State.length'; length_store = c ∷ [] })
      else (invalid, d)

  unfoldable pub consume_length : Decoder → ℕ → Verdict × Decoder
  consume_length d c =
      if c == b':'
      then elim (k.to_int d.length_store) [
        | none ↦ (thrown, record d { state = State.content' })
        | some n ↦
            if n == 2147483647
            then (thrown, record d { state = State.content'; length_ = n })
            else (more, record d { state = State.content'; length_ = n; content_ = reserve n })
      ]
      else if is_digit c
      then (more, record d { length_store = d.length_store ++ c ∷ [] })
      else (invalid, d)

  -- The buffer is full: the message is parsed and checked.
  unfoldable pub consume_full : Decoder → Verdict × Decoder
  consume_full d = elim (k.parse d.content_.content) [
    | none ↦ (invalid, d)
    | some m ↦
        if accepts m
        then (complete, record d { state = State.end; meta = some m })
        else (invalid, record d { meta = some m })
  ]

  unfoldable pub consume_content : Decoder → ℕ → Verdict × Decoder
  unfolding consume_full
  consume_content d c =
      if full d.content_
      then (invalid, d)
      else (let b = push_back d.content_ c in
          if full b
          then consume_full (record d { content_ = b })
          else (more, record d { content_ = b }))

  -- `Consume`
  unfoldable pub consume_at : State → Decoder → ℕ → Verdict × Decoder
  unfolding consume_start consume_length consume_content
  consume_at State.start d c = consume_start d c
  consume_at State.end d c = consume_start d c
  consume_at State.length' d c = consume_length d c
  consume_at State.content' d c = consume_content d c

  unfoldable pub consume : Decoder → ℕ → Verdict × Decoder
  unfolding consume_at
  consume d c = consume_at d.state d c

  -- `ProtobufDecoder::Decode`: the verdict, the bytes that are left, and the decoder.
  unfoldable pub decode : Decoder → Bytes → Verdict × Bytes × Decoder
  decode d [] = (more, [], d)
  decode d (c ∷ s) =
      let (v, d') = consume d c in elim v [ more ↦ decode d' s | other ↦ (other, s, d') ]

-- How a read ends: the connection goes on, is closed, or an exception leaves the handler.
pub data Outcome (W : Type 0) : Type 0 where
  goes_on : Decoder → W → Outcome W
  closes : W → Outcome W
  throws : W → Outcome W
  spins : Outcome W

-- `RawConnectionImpl::Decode` with the virtual `Handle` as a parameter, which changes a world `W`.
module _ (k : Codec) {W : Type 0} (handle : MetaData → W → Bool × W) where
  -- What `Handle` does with the decoder's message.
  abbrev pub handle_meta : Option MetaData → W → Bool × W
  handle_meta none w = (false, w)
  handle_meta (some m) w = handle m w

  -- One round of the loop for each message; `spins` if the rounds do not suffice.
  unfoldable pub decode_rounds : ℕ → Decoder → Bytes → W → Outcome W
  decode_rounds n d [] w = goes_on d w
  decode_rounds zero d (c ∷ s) w = spins
  decode_rounds (suc n) d (c ∷ s) w =
      let (v, rest, d') = decode k d (c ∷ s) in
      elim v [
        | complete ↦
            let (ok, w') = handle_meta d'.meta w in
            elim ok [ true ↦ decode_rounds n (reset d') rest w' | false ↦ closes w' ]
        | invalid ↦ closes w
        | more ↦ goes_on d' w
        | thrown ↦ throws w
      ]

  unfoldable pub decode_bytes : Decoder → Bytes → W → Outcome W
  unfolding decode_rounds
  decode_bytes d s w = decode_rounds (length s) d s w

  -- The reads of a connection, one after the other.
  pub decode_reads : Decoder → List Bytes → W → Outcome W
  decode_reads d [] w = goes_on d w
  decode_reads d (s ∷ ss) w = elim (decode_bytes d s w) [
    | goes_on d' w' ↦ decode_reads d' ss w'
    | other ↦ other
  ]
