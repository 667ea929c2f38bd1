-- ===== src/Timer/Place.antt =====
-- TimerMaster.cpp, `InternalAddTimer`: the list in which a slot is put, and what holds of it there.
use tt3d.Base.{
  ℕ, zero, suc, ◌+◌, ◌-◌, ◌*◌, ◌/◌, ◌%◌, ◌^◌, ◌≤◌, ◌<◌, ◌≡◌, arith, none, some, ltb, if◌then◌else◌,
}
use tt3d.Timer.{find_vec, idx_u64}

-- What a slot of vector `i`, list `j` satisfies at the time `now`: `j` is its time's digit, and the
-- time at which the list is next taken is not past and at most one turn of the vector away.
abbrev pub Fits : ℕ → ℕ → ℕ → ℕ → Type 0
Fits now zero j jiffies = (jiffies % 256 ≡ j) × (now ≤ jiffies) × (jiffies < now + 256)
Fits now (suc zero) j jiffies =
    (jiffies / 256 % 256 ≡ j) × (now ≤ jiffies / 256 * 256) × (jiffies / 256 * 256 < now + 65536)
Fits now (suc (suc zero)) j jiffies =
    (jiffies / 65536 % 256 ≡ j)
    × (now ≤ jiffies / 65536 * 65536)
    × (jiffies / 65536 * 65536 < now + 16777216)
Fits now (suc (suc (suc zero))) j jiffies =
    (jiffies / 16777216 % 256 ≡ j)
    × (now ≤ jiffies / 16777216 * 16777216)
    × (jiffies / 16777216 * 16777216 < now + 4294967296)
Fits now (suc (suc (suc (suc i)))) j jiffies = ⊥

-- The vector by the distance, the list by the digit of the time.
abbrev pub place : ℕ → ℕ → ℕ × ℕ
place now jiffies =
    if ltb (jiffies - now) 256
    then (0, jiffies % 256)
    else if ltb (jiffies - now) 65536
    then (1, jiffies / 256 % 256)
    else if ltb (jiffies - now) 16777216
    then (2, jiffies / 65536 % 256)
    else (3, jiffies / 16777216 % 256)

pub find_vec-place :
    (now jiffies : ℕ)
    → now ≤ jiffies
    → jiffies < now + 2 ^ 32
    → find_vec 4 0 1 (idx_u64 jiffies now) jiffies ≡ some (place now jiffies)
unfolding find_vec
find_vec-place now jiffies h b = ground arith

pub find_vec-past :
    (now jiffies : ℕ)
    → jiffies < now
    → now < 2 ^ 31
    → find_vec 4 0 1 (idx_u64 jiffies now) jiffies ≡ none
unfolding find_vec
find_vec-past now jiffies h b = ground arith

pub place-Fits :
    (now jiffies : ℕ)
    → now ≤ jiffies
    → jiffies < now + 2 ^ 32
    → let p = place now jiffies in Fits now p.0 p.1 jiffies
place-Fits now jiffies h b = ground arith
