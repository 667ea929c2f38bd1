-- ===== src/Branch/Tests.antt =====
-- Branch.cpp: the theorems at a branch between two nodes.
use tt3d.Base.{ℕ, ◌+◌, ◌≡◌, refl, arith, true, false, [], ◌∷◌, some}
use tt3d.Coordinate.Sample.{plane, distance_nine}
use tt3d.Coordinate.{chain, Outcome, value, out_of_range, undefined, terminated}
use tt3d.Branch.Len.{len-stale}
use tt3d.Branch.{set_end_node, World, Branch, new_branch, len, add_tracks, track_len}

abbrev two_nodes : World ℕ
two_nodes = record { positions = λ i. i ∷ 2 ∷ 0 ∷ []; lengths = λ i. i + 10 }

-- The length alone.
abbrev number : {A : Type 0} → Outcome (ℕ × World A × Branch) → Outcome ℕ
number (value r) = value r.0
number out_of_range = out_of_range
number undefined = undefined
number terminated = terminated

-- From node 0 to node 3, and a branch with two tracks.
abbrev straight : Branch
straight = new_branch (some 0) (some 3)

abbrev with_tracks : Branch
with_tracks = record straight { tracks = 4 ∷ 5 ∷ [] }

-- The sum of the tracks' lengths, where an `int` holds it.
len-with_tracks : number (len plane (λ d. d) true two_nodes with_tracks) ≡ value 29
unfolding len add_tracks track_len chain
len-with_tracks = refl

too_long :
    number (len plane (λ d. d) true (record two_nodes { lengths = λ i. 2147483647 }) with_tracks)
    ≡ undefined
unfolding len add_tracks track_len chain
too_long = refl

-- Nodes 0 and 3 are 9 apart, as the test's measure takes no root; then the branch ends at node 0.
abbrev measured : Branch
measured = record straight { cached_len = 9 }

len-straight : len plane (λ d. d) true two_nodes straight ≡ value (9, two_nodes, measured)
unfolding len chain
len-straight = rw distance_nine refl

len-stale_example :
    len plane (λ d. d) false two_nodes (set_end_node (some 0) measured)
    ≡ value (9, two_nodes, set_end_node (some 0) measured)
len-stale_example =
    len-stale plane (λ d. d) true two_nodes two_nodes two_nodes straight measured 9 (some 0)
      (some 0) len-straight (omega arith)
