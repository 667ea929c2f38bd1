-- ===== src/Wire/RoundTrip.antt =====
-- RawProtobufConnection.hpp and .cpp: what `EncodeMessage` writes, `ProtobufDecoder` reads back, for
-- a stream of messages in any number of reads.
use tt3d.Base.{
  ℕ, ◌+◌, ◌<◌, ◌≡◌, ◌∙◌, refl, ap, arith, Bool, true, false, List, [], ◌∷◌, ◌++◌, Option, none,
  some, length, All, append_assoc, Bool-cases, inl, inr, length-append,
}
use tt3d.Wire.{
  Bytes, Codec, IsCodec, State, accepts, Decoder, MetaData, Outcome, goes_on, closes, reset,
  encode_message, decode_reads, new_decoder,
}
use tt3d.Wire.Feed.{feed, decode_bytes-feed, concat, decode_reads-concat}
use tt3d.Wire.Stream.{in_content, feed_content, consume_last, feed_header, feed_complete}

-- The bytes that `InternalPushData` hands on for an encoded message.
abbrev pub frame_of : Option (Bytes × Bytes) → Bytes
frame_of none = []
frame_of (some (header, content)) = header ++ content

-- What a sender must see to: the message serialises to between 1 and 2 ^ 31 - 2 bytes, has content,
-- and brings a response identify if it is a request.
pub record IsSendable (k : Codec) (m : MetaData) : Type 0 where
  pub bytes : Bytes
  pub serialized : k.serialize m ≡ some bytes
  pub some_bytes : 0 < length bytes
  pub fits : length bytes < 2147483647
  pub accepted : accepts m ≡ true

snoc_view : (s : Bytes) → 0 < length s → (xs : Bytes) × (c : ℕ) × (s ≡ xs ++ c ∷ [])
snoc_view [] h = absurd (omega arith)
snoc_view (x ∷ []) h = ([], x, refl)
snoc_view (x ∷ y ∷ s) h =
    let (xs, c, e) = snoc_view (y ∷ s) (omega arith) in (x ∷ xs, c, ap (λ t. x ∷ t) e)

module _ (k : Codec) {W : Type 0} (handle : MetaData → W → Bool × W) where
  -- The messages handed on one after the other, until one is refused.
  unfoldable pub deliver : List MetaData → W → Bool × W
  deliver [] w = (true, w)
  deliver (m ∷ ms) w =
      let (ok, w') = handle m w in elim ok [ true ↦ deliver ms w' | false ↦ (false, w') ]

  unfoldable pub frames : List MetaData → Bytes
  frames [] = []
  frames (m ∷ ms) = frame_of (encode_message k m) ++ frames ms

  -- All were accepted and the decoder waits for the next message, or the connection is closed.
  abbrev pub Delivered : Bool × W → Outcome W → Type 0
  Delivered (true, w) o = (d : Decoder) × (d.state ≡ State.start) × (o ≡ goes_on d w)
  Delivered (false, w) o = o ≡ closes w

  -- The loop after a message, with the decoder that comes out.
  abbrev After : MetaData → Bytes → W → Outcome W → Type 0
  After m rest w o =
      (d : Decoder) × (d.state ≡ State.start)
      × (o ≡ elim (handle m w).0 [
        | true ↦ feed k handle d rest (handle m w).1
        | false ↦ closes (handle m w).1
      ])

  content-After :
      (s rest : Bytes) (d : Decoder) (m : MetaData) (w : W)
      → 0 < length s
      → k.parse s ≡ some m
      → accepts m ≡ true
      → After m rest w (feed k handle (in_content k handle d [] (length s)) (s ++ rest) w)
  content-After s rest d m w pos e a =
      let (xs, c, split) = snoc_view s pos in
      let len : length xs + 1 ≡ length s =
        omega (arith, ap length split, length-append xs (c ∷ [])) in
      let (d', last, meta) = consume_last k handle c (length s) xs d m len (rw (← split) e) a in
      (
        reset d',
        refl,
        ap (λ t. feed k handle (in_content k handle d [] (length s)) t w)
              (ap (λ t. t ++ rest) split ∙ append_assoc xs (c ∷ []) rest)
            ∙ feed_content k handle xs [] rest c (length s) d w (omega arith)
            ∙ feed_complete k handle c rest _ d' m w last meta,
      )

  frame_of-encode_message :
      (m : MetaData) (s : Bytes)
      → k.serialize m ≡ some s
      → frame_of (encode_message k m) ≡ (k.to_text (length s) ++ b':' ∷ []) ++ s
  unfolding encode_message
  frame_of-encode_message m s e = ground arith

  message-After :
      (m : MetaData) (rest : Bytes) (d : Decoder) (w : W)
      → IsCodec k
      → IsSendable k m
      → d.state ≡ State.start
      → After m rest w (feed k handle d (frame_of (encode_message k m) ++ rest) w)
  message-After m rest d w codec snd e =
      let n = length snd.bytes in
      let (d', header) =
        feed_header k handle (k.to_text n) (snd.bytes ++ rest) n d w e (codec.to_text_head n)
          (codec.to_text_digits n) (codec.to_int-to_text n (omega (arith, snd.fits)))
          (omega (arith, snd.fits)) in
      let (d'', fresh, whole) =
        content-After snd.bytes rest d' m w snd.some_bytes
          (codec.parse-serialize m snd.bytes snd.serialized) snd.accepted in
      (
        d'',
        fresh,
        rw (frame_of-encode_message m snd.bytes snd.serialized, append_assoc, append_assoc)
            (header ∙ whole),
      )

  frames-Delivered :
      (ms : List MetaData) (d : Decoder) (w : W)
      → IsCodec k
      → All (IsSendable k) ms
      → d.state ≡ State.start
      → Delivered (deliver ms w) (feed k handle d (frames ms) w)
  unfolding deliver frames
  frames-Delivered [] d w codec h e = (d, e, unfold feed in refl)
  frames-Delivered (m ∷ ms) d w codec (hm, hs) e =
      let (d', fresh, run) = message-After m (frames ms) d w codec hm e in
      elim (Bool-cases (handle m w).0) [
        | inl ok ↦ rw (run, ok, deliver) (frames-Delivered ms d' (handle m w).1 codec hs fresh)
        | inr ko ↦ rw (run, ko, deliver)
      ]

  -- With a codec that keeps its promises, sendable messages that one side encodes with
  -- `EncodeMessage` are handed to `Handle` on the other side,
  -- all of them, once and in order, in whatever pieces the bytes are read, as long as `Handle`
  -- accepts them; at the first that it refuses the connection is closed.
  pub decode_reads-frames :
      (ms : List MetaData) (reads : List Bytes) (w : W)
      → IsCodec k
      → All (IsSendable k) ms
      → concat reads ≡ frames ms
      → Delivered (deliver ms w) (decode_reads k handle new_decoder reads w)
  unfolding new_decoder
  decode_reads-frames ms reads w codec h e =
      rw (decode_reads-concat, e, decode_bytes-feed)
        (frames-Delivered ms new_decoder w codec h refl)
