-- ===== src/Base/Members.antt =====
-- Sets of numbers as lists: membership, and the list without a member.
use Prim.Native.Nat.{ℕ, ◌+◌, ◌<◌}
use mathlib.Core.Path.{◌≡◌}
use mathlib.Core.Logic.{◌≢◌}
use mathlib.Core.Bool.{Bool, true, false}
use mathlib.Core.List.{List, [], ◌∷◌}
use native.Mathlib.Omega.{arith}
use tt3d.Base.Tests.{◌==◌, if◌then◌else◌}
use tt3d.Base.Lists.{length}

unfoldable pub find : ℕ → List ℕ → Bool
find c [] = false
find c (d ∷ ds) = if c == d then true else find c ds

unfoldable pub erase : ℕ → List ℕ → List ℕ
erase c [] = []
erase c (d ∷ ds) = let rest = erase c ds in if c == d then ds else d ∷ rest

pub length-erase : (c : ℕ) (cs : List ℕ) → find c cs ≡ true → length (erase c cs) + 1 ≡ length cs
unfolding find erase
length-erase c [] h = ground arith
length-erase c (d ∷ ds) h = ground (arith, length-erase c ds)

pub length_positive : (c : ℕ) (cs : List ℕ) → find c cs ≡ true → 0 < length cs
unfolding find
length_positive c [] h = ground arith
length_positive c (d ∷ ds) h = omega arith

-- Erasing one number leaves the others.
pub find-erase : (b c : ℕ) (cs : List ℕ) → b ≢ c → find b (erase c cs) ≡ find b cs
unfolding find erase
find-erase b c [] h = ground arith
find-erase b c (d ∷ ds) h = ground (arith, find-erase b c ds h)
