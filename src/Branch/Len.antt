-- ===== src/Branch/Len.antt =====
-- Branch.cpp and Track.cpp: what `Len` yields, at once and later.
use tt3d.Base.{
  ℕ, ◌≡◌, ◌≢◌, refl, subst, arith, Bool, true, false, List, [], ◌∷◌, Option, none, some, ◌==◌,
  Bool-cases, inl, inr,
}
use tt3d.Coordinate.{Outcome, value, out_of_range, undefined, terminated, chain, Measure, distance}
use tt3d.Branch.{World, Branch, set_start_node, set_end_node, add_tracks, measure, len, get_pos}

-- The branch keeps the length that is returned.
abbrev Kept : {A : Type 0} → Outcome (ℕ × World A × Branch) → Type 0
Kept (value (l, w, b)) = b.cached_len ≡ l
Kept other = Unit

module _ {A D : Type 0} (M : Measure A D) (to_len : D → ℕ) where
  -- Without tracks, once the distance is computed.
  measured : World A → Branch → Outcome D → Outcome (ℕ × World A × Branch)
  measured w b o = chain o (λ l. value (to_len l, w, record b { cached_len = to_len l }))

  measured-Kept : (w : World A) (b : Branch) (o : Outcome D) → Kept (measured w b o)
  unfolding measured chain
  measured-Kept w b (value l) = refl
  measured-Kept w b out_of_range = tt
  measured-Kept w b undefined = tt
  measured-Kept w b terminated = tt

  summed-Kept :
      (b : Branch) (o : Outcome (ℕ × World A))
      → Kept (chain o (λ r. value (r.0, r.1, record b { cached_len = r.0 })))
  unfolding chain
  summed-Kept b (value r) = refl
  summed-Kept b out_of_range = tt
  summed-Kept b undefined = tt
  summed-Kept b terminated = tt

  measure-Kept :
      (w : World A) (s e : Option ℕ) (ts : List ℕ)
      → let b : Branch = record { start_node = s; end_node = e; tracks = ts; cached_len = 0 } in
        Kept (measure M to_len w b)
  unfolding chain measured
  measure-Kept w s e (t ∷ ts) =
      summed-Kept (record { start_node = s; end_node = e; tracks = t ∷ ts; cached_len = 0 })
        (add_tracks (t ∷ ts) 0 w)
  measure-Kept w s none [] = tt
  measure-Kept w none (some e) [] = tt
  measure-Kept w (some s) (some e) [] =
      measured-Kept w
        (record { start_node = some s; end_node = some e; tracks = []; cached_len = 0 })
        (distance M (get_pos e w) (get_pos s w))

  len-Kept : (flush : Bool) (w : World A) (b : Branch) → Kept (len M to_len flush w b)
  unfolding len
  len-Kept true w b = measure-Kept w b.start_node b.end_node b.tracks
  len-Kept false w b = elim (Bool-cases (b.cached_len == 0)) [
    | inl z ↦ rw (z, zero_len z) (measure-Kept w b.start_node b.end_node b.tracks)
    | inr z ↦ rw z refl
  ]
    where
      zero_len : (b.cached_len == 0) ≡ true → b.cached_len ≡ 0
      zero_len z = ground arith

  -- After `Len` has yielded a length that is not 0, `Len` without `flush` yields it again, also when the branch has
  -- been given other nodes, and when nodes have moved and tracks have other lengths, in between.
  pub len-stale :
      (flush : Bool) (w w1 w2 : World A) (b b1 : Branch) (l : ℕ) (s e : Option ℕ)
      → len M to_len flush w b ≡ value (l, w1, b1)
      → l ≢ 0
      → len M to_len false w2 (set_start_node s (set_end_node e b1))
        ≡ value (l, w2, set_start_node s (set_end_node e b1))
  unfolding len
  len-stale flush w w1 w2 b b1 l s e h n =
      let k : b1.cached_len ≡ l = subst Kept h (len-Kept flush w b) in ground (arith, k, n)
