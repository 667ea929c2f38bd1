-- ===== src/Buffers.antt =====
-- src/core/SharedConstBuffers.hpp: the queue of byte strings that a connection writes out.
-- A `const_buffer` is the bytes that it still shows; the strings that the queue owns are `store`.
pub mod Consume
mod Tests
use tt3d.Base.{
  ℕ, zero, suc, ◌+◌, ◌-◌, Bool, true, false, List, [], ◌∷◌, ◌++◌, length, take, drop, ltb, ◌==◌,
  if◌then◌else◌,
}

abbrev pub Bytes : Type 0
Bytes = List ℕ

pub record SharedConstBuffers : Type 0 where
  pub buffer : List Bytes
  pub store : List Bytes
  pub start : ℕ

abbrev pub new_buffers : SharedConstBuffers
new_buffers = record { buffer = []; store = []; start = 0 }

unfoldable pub push : SharedConstBuffers → Bytes → SharedConstBuffers
push b s = record b { store = b.store ++ s ∷ []; buffer = b.buffer ++ s ∷ [] }

pub clear : SharedConstBuffers → SharedConstBuffers
clear b = record { buffer = []; store = []; start = 0 }

unfoldable pub empty : SharedConstBuffers → Bool
empty b = b.start == length b.buffer

-- `begin` to `end`.
pub sequence : SharedConstBuffers → List Bytes
sequence b = drop b.start b.buffer

size_from : List Bytes → ℕ → ℕ
size_from [] s = s
size_from (b ∷ bs) s = size_from bs (s + length b)

pub size : SharedConstBuffers → ℕ
unfolding size_from
size b = size_from (drop b.start b.buffer) 0

-- The loop of `consume` at the index `i`: the buffers from there on, and `mStart`.
unfoldable pub consume_from : List Bytes → ℕ → ℕ → List Bytes × ℕ
consume_from [] i n = ([], i)
consume_from (b ∷ bs) i n =
    let (bs', start) = consume_from bs (i + 1) (n - length b) in
    if ltb (length b) n
    then (b ∷ bs', start)
    else if n == length b
    then (b ∷ bs, i + 1)
    else (drop n b ∷ bs, i)

unfoldable pub consume : SharedConstBuffers → ℕ → SharedConstBuffers
unfolding consume_from
consume b n =
    let (bs, start) = consume_from (drop b.start b.buffer) b.start n in
    record b { buffer = take b.start b.buffer ++ bs; start = start }
