-- ===== src/Wire/World.antt =====
-- RawConnection.hpp, `RawConnectionImpl::Decode`: what `Handle` keeps, the loop keeps.
use tt3d.Base.{
  ℕ, zero, suc, ◌≡◌, Bool, true, false, [], ◌∷◌, Option, none, some, arith, length, Bool-cases, inl,
  inr,
}
use tt3d.Wire.{
  Bytes, Codec, Decoder, MetaData, Outcome, goes_on, closes, throws, spins, Verdict, complete,
  invalid, more, thrown, decode, handle_meta, decode_rounds, decode_bytes, reset,
}

abbrev pub World : {W : Type 0} → (W → Type 0) → Outcome W → Type 0
World P (goes_on d w) = P w
World P (closes w) = P w
World P (throws w) = P w
World P spins = Unit

-- No exception has left the decoder.
abbrev pub Stands : {W : Type 0} → Outcome W → Type 0
Stands (throws w) = ⊥
Stands other = Unit

-- A handler that may fault, as the loop calls it: after a fault it does not go on.
unfoldable pub or_fault :
    {W : Type 0} → (MetaData → W → Option (Bool × W)) → MetaData → Option W → Bool × Option W
or_fault h m none = (false, none)
or_fault h m (some w) = elim (h m w) [ none ↦ (false, none) | some (ok, w') ↦ (ok, some w') ]

module _ {W : Type 0} (h : MetaData → W → Option (Bool × W)) (m : MetaData) (w : W) where
  pub or_fault-some :
      (b : Bool) (w' : W) → h m w ≡ some (b, w') → (or_fault h m (some w)).1 ≡ some w'
  unfolding or_fault
  or_fault-some b w' e = ground (arith, e)

  pub or_fault-none : h m w ≡ none → (or_fault h m (some w)).1 ≡ none
  unfolding or_fault
  or_fault-none e = ground (arith, e)

module _ (k : Codec) {W : Type 0} (handle : MetaData → W → Bool × W) (P : W → Type 0)
    (keeps : (m : MetaData) (w : W) → P w → P (handle m w).1) where
  handle_meta-keeps : (m : Option MetaData) (w : W) → P w → P (handle_meta k handle m w).1
  handle_meta-keeps none w p = p
  handle_meta-keeps (some m) w p = keeps m w p

  after_verdict :
      (n : ℕ) (v : Verdict) (rest : Bytes) (d : Decoder) (w : W)
      → ((d' : Decoder) (w' : W) → P w' → World P (decode_rounds k handle n d' rest w'))
      → P w
      → World P (elim v [
        | complete ↦
            let (ok, w') = handle_meta k handle d.meta w in
            elim ok [ true ↦ decode_rounds k handle n (reset d) rest w' | false ↦ closes w' ]
        | invalid ↦ closes w
        | more ↦ goes_on d w
        | thrown ↦ throws w
      ])
  after_verdict n complete rest d w h p = elim (Bool-cases (handle_meta k handle d.meta w).0) [
    | inl e ↦ rw e (h (reset d) (handle_meta k handle d.meta w).1 (handle_meta-keeps d.meta w p))
    | inr e ↦ rw e (handle_meta-keeps d.meta w p)
  ]
  after_verdict n invalid rest d w h p = p
  after_verdict n more rest d w h p = p
  after_verdict n thrown rest d w h p = p

  rounds-World :
      (n : ℕ) (d : Decoder) (s : Bytes) (w : W) → P w → World P (decode_rounds k handle n d s w)
  unfolding decode_rounds
  rounds-World n d [] w p = p
  rounds-World zero d (c ∷ s) w p = tt
  rounds-World (suc n) d (c ∷ s) w p =
      let (v, rest, d') = decode k d (c ∷ s) in
      after_verdict n v rest d' w (λ d1 w1 q. rounds-World n d1 rest w1 q) p

  pub decode_bytes-World :
      (d : Decoder) (s : Bytes) (w : W) → P w → World P (decode_bytes k handle d s w)
  unfolding decode_bytes
  decode_bytes-World d s w p = rounds-World (length s) d s w p
