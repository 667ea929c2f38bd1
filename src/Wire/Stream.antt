-- ===== src/Wire/Stream.antt =====
-- RawProtobufConnection.cpp, `ProtobufDecoder::Consume`: the pass over a header and over a content.
use tt3d.Base.{
  ℕ, ◌+◌, ◌<◌, ◌≡◌, ◌∙◌, refl, arith, Bool, true, false, [], ◌∷◌, ◌++◌, some, length, All,
  append-nil, append_assoc, length-append,
}
use tt3d.Wire.{
  Bytes, Codec, State, is_digit, accepts, Decoder, MetaData, complete, more, closes, consume, reset,
}
use tt3d.Wire.Feed.{feed}

module _ (k : Codec) {W : Type 0} (handle : MetaData → W → Bool × W) where
  feed_more :
      (c : ℕ) (s : Bytes) (d : Decoder) (d' : Decoder) (w : W)
      → consume k d c ≡ (more, d')
      → feed k handle d (c ∷ s) w ≡ feed k handle d' s w
  unfolding feed
  feed_more c s d d' w e = ground arith

  consume_digit :
      (c : ℕ) (d : Decoder)
      → d.state ≡ State.length'
      → is_digit c ≡ true
      → consume k d c ≡ (more, record d { length_store = d.length_store ++ c ∷ [] })
  unfolding consume
  consume_digit c d e h = ground arith

  feed_digits :
      (s rest : Bytes) (d : Decoder) (w : W)
      → d.state ≡ State.length'
      → All (λ c. is_digit c ≡ true) s
      → feed k handle d (s ++ rest) w
        ≡ feed k handle (record d { length_store = d.length_store ++ s }) rest w
  feed_digits [] rest d w e h = rw append-nil
  feed_digits (c ∷ s) rest d w e (hc, hs) =
      feed_more c (s ++ rest) d _ w (consume_digit c d e hc)
      ∙ feed_digits s rest (record d { length_store = d.length_store ++ c ∷ [] }) w e hs
      ∙ rw (append_assoc)

  -- The decoder inside a content of `n` bytes of which it has seen some.
  pub in_content : Decoder → Bytes → ℕ → Decoder
  in_content d seen n = record d {
    state = State.content';
    content_ = record { content = seen; size = length seen; capacity = n };
  }

  consume_inside :
      (c n : ℕ) (seen : Bytes) (d : Decoder)
      → length seen + 1 < n
      → consume k (in_content d seen n) c ≡ (more, in_content d (seen ++ c ∷ []) n)
  unfolding consume in_content
  consume_inside c n seen d h = ground (arith, length-append seen (c ∷ []))

  -- The bytes up to the last one are stored.
  pub feed_content :
      (s seen rest : Bytes) (c n : ℕ) (d : Decoder) (w : W)
      → length seen + length s + 1 ≡ n
      → feed k handle (in_content d seen n) (s ++ (c ∷ rest)) w
        ≡ feed k handle (in_content d (seen ++ s) n) (c ∷ rest) w
  feed_content [] seen rest c n d w h = rw append-nil
  feed_content (x ∷ s) seen rest c n d w h =
      feed_more x (s ++ (c ∷ rest)) _ _ w (consume_inside x n seen d (omega arith))
      ∙ feed_content s (seen ++ x ∷ []) rest c n d w (omega (arith, length-append seen (x ∷ []), h))
      ∙ rw (append_assoc)

  -- The last byte completes the message.
  pub consume_last :
      (c n : ℕ) (seen : Bytes) (d : Decoder) (m : MetaData)
      → length seen + 1 ≡ n
      → k.parse (seen ++ c ∷ []) ≡ some m
      → accepts m ≡ true
      → (d' : Decoder) × (consume k (in_content d seen n) c ≡ (complete, d')) × (d'.meta ≡ some m)
  unfolding consume in_content
  consume_last c n seen d m h e a = (
    record d {
      state = State.end;
      content_ = record { content = seen ++ c ∷ []; size = length seen + 1; capacity = n };
      meta = some m;
    },
    ground arith,
    refl,
  )

  -- The number and the colon.
  consume_colon :
      (d : Decoder) (n : ℕ)
      → d.state ≡ State.length'
      → k.to_int d.length_store ≡ some n
      → n < 2147483647
      → consume k d b':' ≡ (more, in_content (record d { length_ = n }) [] n)
  unfolding consume in_content
  consume_colon d n e h b = ground arith

  consume_first :
      (c : ℕ) (d : Decoder)
      → d.state ≡ State.start
      → is_digit c ≡ true
      → consume k d c ≡ (more, record d { state = State.length'; length_store = c ∷ [] })
  unfolding consume
  consume_first c d e h = ground arith

  -- The header brings the decoder to the content.
  pub feed_header :
      (text rest : Bytes) (n : ℕ) (d : Decoder) (w : W)
      → d.state ≡ State.start
      → 0 < length text
      → All (λ c. is_digit c ≡ true) text
      → k.to_int text ≡ some n
      → n < 2147483647
      → (d' : Decoder) × (feed k handle d (text ++ (b':' ∷ rest)) w
          ≡ feed k handle (in_content d' [] n) rest w)
  feed_header [] rest n d w e h q i b = absurd (omega arith)
  feed_header (c ∷ text) rest n d w e h (hc, hs) i b =
      let first = record d { state = State.length'; length_store = c ∷ [] } in
      let store = record first { length_store = c ∷ text } in
      (
        record store { length_ = n },
        feed_more c (text ++ (b':' ∷ rest)) d first w (consume_first c d e hc)
            ∙ feed_digits text (b':' ∷ rest) first w refl hs
            ∙ feed_more b':' rest store _ w (consume_colon store n refl i b),
      )

  -- What the loop does once the message is complete.
  pub feed_complete :
      (c : ℕ) (s : Bytes) (d d' : Decoder) (m : MetaData) (w : W)
      → consume k d c ≡ (complete, d')
      → d'.meta ≡ some m
      → feed k handle d (c ∷ s) w ≡ elim (handle m w).0 [
        | true ↦ feed k handle (reset d') s (handle m w).1
        | false ↦ closes (handle m w).1
      ]
  unfolding feed
  feed_complete c s d d' m w e h = ground arith
