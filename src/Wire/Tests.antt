-- ===== src/Wire/Tests.antt =====
-- RawProtobufConnection.cpp: the theorems about the line protocol, at concrete messages.
use tt3d.Base.{ℕ, ◌+◌, ◌≡◌, refl, arith, Bool, true, List, [], ◌∷◌, none, some}
use tt3d.Wire.{
  Bytes, MetaData, MetaType, new_decoder, decode_bytes, decode_reads, encode_message, decode,
}
use tt3d.Wire.Plain.{plain, plain-IsCodec, serialize, to_text}
use tt3d.Wire.Feed.{concat, decode_reads-concat}
use tt3d.Wire.RoundTrip.{IsSendable, frames, deliver, Delivered, decode_reads-frames}
use tt3d.Wire.Bounds.{IsBounded, decode-IsBounded, new_decoder-IsBounded}

-- A request and a response.
abbrev ask : MetaData
ask = record { type = MetaType.request; identify = 7; response_identify = some 9; content = 5 ∷ [] }

abbrev answer : MetaData
answer = record {
  type = MetaType.response;
  identify = 9;
  response_identify = none;
  content = 6 ∷ 6 ∷ [];
}

framed : frames plain (λ m (w : ℕ). (true, w)) (ask ∷ []) ≡ b'5' ∷ b':' ∷ 1 ∷ 7 ∷ 1 ∷ 9 ∷ 5 ∷ []
unfolding frames encode_message serialize to_text
framed = refl

-- `Handle` counts the messages.
abbrev counting : MetaData → ℕ → Bool × ℕ
counting m w = (true, w + 1)

abbrev in_two_reads : List Bytes
in_two_reads =
    (b'5' ∷ b':' ∷ 1 ∷ 7 ∷ []) ∷ (1 ∷ 9 ∷ 5 ∷ b'6' ∷ b':' ∷ 2 ∷ 9 ∷ 0 ∷ 0 ∷ 6 ∷ 6 ∷ []) ∷ []

ask-IsSendable : IsSendable plain ask
unfolding serialize
ask-IsSendable = record {
  bytes = 1 ∷ 7 ∷ 1 ∷ 9 ∷ 5 ∷ [];
  serialized = refl;
  some_bytes = omega arith;
  fits = omega arith;
  accepted = refl;
}

answer-IsSendable : IsSendable plain answer
unfolding serialize
answer-IsSendable = record {
  bytes = 2 ∷ 9 ∷ 0 ∷ 0 ∷ 6 ∷ 6 ∷ [];
  serialized = refl;
  some_bytes = omega arith;
  fits = omega arith;
  accepted = refl;
}

decode_reads-frames_example :
    Delivered plain counting (true, 2) (decode_reads plain counting new_decoder in_two_reads 0)
unfolding deliver frames encode_message serialize to_text
decode_reads-frames_example =
    decode_reads-frames plain counting (ask ∷ answer ∷ []) in_two_reads 0 plain-IsCodec
      (ask-IsSendable, (answer-IsSendable, tt)) refl

decode_reads-concat_example :
    decode_reads plain counting new_decoder in_two_reads 0
    ≡ decode_bytes plain counting new_decoder (concat in_two_reads) 0
decode_reads-concat_example = decode_reads-concat plain counting in_two_reads new_decoder 0

decode-IsBounded_example : IsBounded (decode plain new_decoder (b'5' ∷ b':' ∷ 1 ∷ [])).2
decode-IsBounded_example =
    decode-IsBounded plain (b'5' ∷ b':' ∷ 1 ∷ []) new_decoder new_decoder-IsBounded
