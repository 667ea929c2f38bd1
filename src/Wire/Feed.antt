-- ===== src/Wire/Feed.antt =====
-- RawConnection.hpp, `RawConnectionImpl::Decode`: the loop over messages is one pass over the bytes,
-- so it always ends and does not depend on how the bytes are cut into reads.
use tt3d.Base.{
  ℕ, zero, suc, ◌≤◌, ◌≡◌, ◌≢◌, ◌∙◌, sym, refl, arith, Bool, true, false, List, [], ◌∷◌, ◌++◌,
  length,
}
use tt3d.Wire.{
  Bytes, Codec, Decoder, MetaData, Verdict, complete, invalid, more, thrown, Outcome, goes_on,
  closes, throws, spins, consume, decode, reset, handle_meta, decode_rounds, decode_bytes,
  decode_reads,
}

abbrev pub concat : List Bytes → Bytes
concat [] = []
concat (s ∷ ss) = s ++ concat ss

-- What is done after a run that goes on.
abbrev pub and_then : {W : Type 0} → Outcome W → (Decoder → W → Outcome W) → Outcome W
and_then (goes_on d w) f = f d w
and_then (closes w) f = closes w
and_then (throws w) f = throws w
and_then spins f = spins

module _ (k : Codec) {W : Type 0} (handle : MetaData → W → Bool × W) where
  -- The pass, byte by byte.
  unfoldable pub feed : Decoder → Bytes → W → Outcome W
  feed d [] w = goes_on d w
  feed d (c ∷ s) w =
      let (v, d') = consume k d c in
      elim v [
        | more ↦ feed d' s w
        | complete ↦
            let (ok, w') = handle_meta k handle d'.meta w in
            elim ok [ true ↦ feed (reset d') s w' | false ↦ closes w' ]
        | invalid ↦ closes w
        | thrown ↦ throws w
      ]

  -- What the loop does with the answer of `ProtobufDecoder::Decode`.
  abbrev resume : Verdict × Bytes × Decoder → W → Outcome W
  resume (complete, rest, d) w =
      let (ok, w') = handle_meta k handle d.meta w in
      elim ok [ true ↦ feed (reset d) rest w' | false ↦ closes w' ]
  resume (invalid, rest, d) w = closes w
  resume (more, rest, d) w = goes_on d w
  resume (thrown, rest, d) w = throws w

  feed-decode : (s : Bytes) (d : Decoder) (w : W) → feed d s w ≡ resume (decode k d s) w
  unfolding feed decode
  feed-decode [] d w = refl
  feed-decode (c ∷ s) d w = ground (arith, feed-decode s (consume k d c).1 w)

  length-decode : (s : Bytes) (d : Decoder) → length (decode k d s).1 ≤ length s
  unfolding decode
  length-decode [] d = omega arith
  length-decode (c ∷ s) d = ground (arith, length-decode s (consume k d c).1)

  length-decode_cons :
      (c : ℕ) (s : Bytes) (d : Decoder)
      → (decode k d (c ∷ s)).0 ≡ complete
      → length (decode k d (c ∷ s)).1 ≤ length s
  unfolding decode
  length-decode_cons c s d h = ground (arith, length-decode s (consume k d c).1)

  decode_rounds-feed :
      (n : ℕ) (d : Decoder) (s : Bytes) (w : W)
      → length s ≤ n
      → decode_rounds k handle n d s w ≡ feed d s w
  unfolding decode_rounds
  decode_rounds-feed n d [] w h = unfold feed in refl
  decode_rounds-feed zero d (c ∷ s) w h = absurd (omega arith)
  decode_rounds-feed (suc n) d (c ∷ s) w h = ground (
    arith,
    feed-decode (c ∷ s) d w,
    length-decode_cons c s d,
    decode_rounds-feed n (reset (decode k d (c ∷ s)).2) (decode k d (c ∷ s)).1
        (handle_meta k handle (decode k d (c ∷ s)).2.meta w).1,
  )

  pub decode_bytes-feed :
      (d : Decoder) (s : Bytes) (w : W) → decode_bytes k handle d s w ≡ feed d s w
  unfolding decode_bytes
  decode_bytes-feed d s w = decode_rounds-feed (length s) d s w (omega arith)

  pub feed-append :
      (s s' : Bytes) (d : Decoder) (w : W)
      → feed d (s ++ s') w ≡ and_then (feed d s w) (λ d' w'. feed d' s' w')
  unfolding feed
  feed-append [] s' d w = refl
  feed-append (c ∷ s) s' d w = ground (
    arith,
    feed-append s s' (consume k d c).1 w,
    feed-append s s' (reset (consume k d c).1) (handle_meta k handle (consume k d c).1.meta w).1,
  )

  next_reads : List Bytes → Outcome W → Outcome W
  next_reads ss (goes_on d w) = decode_reads k handle d ss w
  next_reads ss (closes w) = closes w
  next_reads ss (throws w) = throws w
  next_reads ss spins = spins

  next_reads-and_then :
      (ss : List Bytes) (s' : Bytes) (o : Outcome W)
      → ((d : Decoder) (w : W) → decode_reads k handle d ss w ≡ feed d s' w)
      → next_reads ss o ≡ and_then o (λ d w. feed d s' w)
  unfolding next_reads
  next_reads-and_then ss s' (goes_on d w) h = h d w
  next_reads-and_then ss s' (closes w) h = refl
  next_reads-and_then ss s' (throws w) h = refl
  next_reads-and_then ss s' spins h = refl

  decode_reads_step :
      (s : Bytes) (ss : List Bytes) (d : Decoder) (w : W)
      → decode_reads k handle d (s ∷ ss) w ≡ next_reads ss (feed d s w)
  unfolding decode_reads next_reads
  decode_reads_step s ss d w = ground (arith, decode_bytes-feed d s w)

  decode_reads-feed :
      (ss : List Bytes) (d : Decoder) (w : W) → decode_reads k handle d ss w ≡ feed d (concat ss) w
  decode_reads-feed [] d w = unfold feed decode_reads in refl
  decode_reads-feed (s ∷ ss) d w =
      decode_reads_step s ss d w
      ∙ next_reads-and_then ss (concat ss) (feed d s w) (decode_reads-feed ss)
      ∙ sym (feed-append s (concat ss) d w)

  -- However the bytes that arrive are cut into reads, the connection ends in the same way, with the
  -- same decoder and the same messages handled.
  pub decode_reads-concat :
      (ss : List Bytes) (d : Decoder) (w : W)
      → decode_reads k handle d ss w ≡ decode_bytes k handle d (concat ss) w
  decode_reads-concat ss d w = decode_reads-feed ss d w ∙ sym (decode_bytes-feed d (concat ss) w)

  feed-ne-spins : (s : Bytes) (d : Decoder) (w : W) → feed d s w ≢ spins
  unfolding feed
  feed-ne-spins [] d w = λ e. cc
  feed-ne-spins (c ∷ s) d w = ground (
    arith,
    feed-ne-spins s (consume k d c).1 w,
    feed-ne-spins s (reset (consume k d c).1) (handle_meta k handle (consume k d c).1.meta w).1,
  )

  -- The loop over the messages of a read ends: every round takes at least one byte.
  pub decode_bytes-ne-spins :
      (d : Decoder) (s : Bytes) (w : W) → decode_bytes k handle d s w ≢ spins
  decode_bytes-ne-spins d s w = rw decode_bytes-feed (feed-ne-spins s d w)
