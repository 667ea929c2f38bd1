-- ===== src/Branch.antt =====
-- src/core/model: Branch.hpp, Branch.cpp, Track.hpp, Track.cpp, Node.hpp and Node.cpp. Nodes and tracks are
-- shared, so they go by number: the position of a node and the cached length of a track are in the world.
pub mod Len
mod Tests
use tt3d.Base.{
  ℕ, ◌+◌, Bool, true, false, not, List, [], ◌∷◌, ◌++◌, Option, none, some, ◌==◌, ltb, if◌then◌else◌,
}
use tt3d.Coordinate.{Coordinate, Outcome, value, undefined, chain, Measure, distance}

pub record World (A : Type 0) : Type 0 where
  pub positions : ℕ → Coordinate A
  pub lengths : ℕ → ℕ

-- `Node::SetPos` and `GetPos`.
abbrev pub set_pos : {A : Type 0} → ℕ → Coordinate A → World A → World A
set_pos n pos w = record w { positions = λ i. if i == n then pos else w.positions i }

abbrev pub get_pos : {A : Type 0} → ℕ → World A → Coordinate A
get_pos n w = w.positions n

-- `Track::Len`; a track's `cachedLen` is not initialized.
pub track_len : {A : Type 0} → ℕ → World A → ℕ × World A
track_len t w =
    let w1 =
      if w.lengths t == 0
      then record w { lengths = λ i. if i == t then 0 else w.lengths i }
      else w in
    (w1.lengths t, w1)

pub record Branch : Type 0 where
  pub start_node : Option ℕ
  pub end_node : Option ℕ
  pub tracks : List ℕ
  pub cached_len : ℕ

abbrev pub new_branch : Option ℕ → Option ℕ → Branch
new_branch start_node end_node = record {
  start_node = start_node;
  end_node = end_node;
  tracks = [];
  cached_len = 0;
}

abbrev pub set_start_node : Option ℕ → Branch → Branch
set_start_node n b = record b { start_node = n }

abbrev pub set_end_node : Option ℕ → Branch → Branch
set_end_node n b = record b { end_node = n }

-- The loop over the tracks, with the sum so far, an `int`: past its range the addition is undefined behaviour.
pub add_tracks : {A : Type 0} → List ℕ → ℕ → World A → Outcome (ℕ × World A)
unfolding track_len
add_tracks [] sum w = value (sum, w)
add_tracks (t ∷ ts) sum w =
    let (l, w1) = track_len t w in
    let rest = add_tracks ts (sum + l) w1 in if ltb (sum + l) 2147483648 then rest else undefined

-- A null node is undefined behaviour.
abbrev pub node : Option ℕ → Outcome ℕ
node none = undefined
node (some n) = value n

-- `to_len` is the conversion of a `double` to an `int`.
module _ {A D : Type 0} (M : Measure A D) (to_len : D → ℕ) where
  -- The part of `Len` without a cached length.
  abbrev pub measure : World A → Branch → Outcome (ℕ × World A × Branch)
  measure w b = elim b.tracks [
    | t ∷ ts ↦
        chain (add_tracks (t ∷ ts) b.cached_len w)
          (λ r. value (r.0, r.1, record b { cached_len = r.0 }))
    | [] ↦ chain (node b.end_node) (λ e. chain (node b.start_node) (λ s.
        chain (distance M (get_pos e w) (get_pos s w))
          (λ l. value (to_len l, w, record b { cached_len = to_len l }))))
  ]

  -- `Branch::Len`
  pub len : Bool → World A → Branch → Outcome (ℕ × World A × Branch)
  len flush w b =
      let b1 = if flush then record b { cached_len = 0 } else b in
      if b1.cached_len == 0 then measure w b1 else value (b1.cached_len, w, b1)
