-- ===== src/Wire/Bounds.antt =====
-- Buffer.hpp and RawProtobufConnection.cpp: the buffer of the decoder is never written past its end.
use tt3d.Base.{ℕ, ◌≤◌, ◌≡◌, arith, [], ◌∷◌, length, length-append}
use tt3d.Wire.{Bytes, Codec, Decoder, new_decoder, consume, decode, consume_at, State}

-- The array has `capacity + 1` cells, of which `size` are written.
pub record IsBounded (d : Decoder) : Type 0 where
  pub counted : length d.content_.content ≡ d.content_.size
  pub within : d.content_.size ≤ d.content_.capacity

pub new_decoder-IsBounded : IsBounded new_decoder
unfolding new_decoder
new_decoder-IsBounded = omega arith

module _ (k : Codec) where
  consume_at-IsBounded :
      (s : State) (d : Decoder) (c : ℕ) → IsBounded d → IsBounded (consume_at k s d c).1
  unfolding consume_at
  consume_at-IsBounded State.start d c b = ground arith
  consume_at-IsBounded State.end d c b = ground arith
  consume_at-IsBounded State.length' d c b = ground arith
  consume_at-IsBounded State.content' d c b =
      ground (arith, length-append d.content_.content (c ∷ []))

  -- No byte, in any state, takes the buffer of the decoder out of its bounds.
  pub consume-IsBounded : (d : Decoder) (c : ℕ) → IsBounded d → IsBounded (consume k d c).1
  unfolding consume
  consume-IsBounded d c b = consume_at-IsBounded d.state d c b

  -- Whatever bytes are decoded, from a decoder whose buffer has been written up to its capacity at
  -- most, the buffer is still written up to its capacity at most.
  pub decode-IsBounded : (s : Bytes) (d : Decoder) → IsBounded d → IsBounded (decode k d s).2
  unfolding decode
  decode-IsBounded [] d b = b
  decode-IsBounded (c ∷ s) d b =
      ground (arith, consume-IsBounded d c b, decode-IsBounded s (consume k d c).1)
