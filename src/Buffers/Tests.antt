-- ===== src/Buffers/Tests.antt =====
-- SharedConstBuffers.hpp: the theorems at concrete queues.
use tt3d.Base.{◌≡◌, refl, arith, true, [], ◌∷◌, drop}
use tt3d.Buffers.{SharedConstBuffers, consume, consume_from, empty}
use tt3d.Buffers.Consume.{contents, IsQueue, contents-consume}

-- The first string has been taken, and a byte of the second.
abbrev two_strings : SharedConstBuffers
two_strings = record {
  buffer = (1 ∷ 2 ∷ []) ∷ (4 ∷ []) ∷ [];
  store = (1 ∷ 2 ∷ []) ∷ (3 ∷ 4 ∷ []) ∷ [];
  start = 1;
}

two_strings-IsQueue : IsQueue two_strings
two_strings-IsQueue = record { within = omega arith }

contents-consume_example :
    (contents (consume two_strings 1) ≡ drop 1 (contents two_strings))
    × IsQueue (consume two_strings 1)
contents-consume_example = contents-consume two_strings 1 two_strings-IsQueue

-- Whole strings are passed over, and the rest of the one in which the count ends stays.
abbrev three_strings : SharedConstBuffers
three_strings = record {
  buffer = (1 ∷ []) ∷ (2 ∷ 3 ∷ []) ∷ (4 ∷ []) ∷ [];
  store = (1 ∷ []) ∷ (2 ∷ 3 ∷ []) ∷ (4 ∷ []) ∷ [];
  start = 0;
}

consume_inside : (consume three_strings 2).buffer ≡ (1 ∷ []) ∷ (3 ∷ []) ∷ (4 ∷ []) ∷ []
unfolding consume consume_from
consume_inside = refl

consume_at_end : (consume three_strings 3).start ≡ 2
unfolding consume consume_from
consume_at_end = refl

consume_all : empty (consume three_strings 9) ≡ true
unfolding consume consume_from empty
consume_all = refl
