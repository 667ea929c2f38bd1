-- ===== src/Timer/Insert.antt =====
-- TimerMaster.cpp, `InternalAddTimer` and `Register`: where the new slot goes, and that the wheel
-- stays well formed.
use mathlib.Core.Logic.{◌⊎◌, inl, inr}
use mathlib.Core.Path.{refl}
use mathlib.Core.Option.{Option}
use tt3d.Base.{
  ℕ, ◌+◌, ◌^◌, ◌≤◌, ◌<◌, ◌≡◌, arith, Bool, List, [], ◌∷◌, ◌++◌, none, some, All, All-append,
}
use tt3d.Timer.{
  TimerSlot, TimerMaster, set_vec, internal_add_timer, push_slot, find_vec, idx_u64,
  new_timer_master,
}
use tt3d.Timer.Place.{Fits, place, find_vec-place, find_vec-past, place-Fits}
use tt3d.Timer.Count.{
  count, pending, count-append, pending-set_vec, set_vec_self, set_vec_ne_list, set_vec_ne_vec,
}
use native.Mathlib.Decide.{ℕ_discrete}

abbrev pub slot : ℕ → ℕ → TimerSlot
slot timer jiffies = record { timer = timer; jiffies = jiffies }

-- Every slot stands in the list for its time.
abbrev pub IsWheel : ℕ → (ℕ → ℕ → List TimerSlot) → Type 0
IsWheel now vecs = (i j : ℕ) → All (λ s. Fits now i j s.jiffies) (vecs i j)

pub new_timer_master-IsWheel : (now : ℕ) → IsWheel now new_timer_master.vecs
unfolding new_timer_master
new_timer_master-IsWheel now i j = tt

abbrev pub appended : TimerMaster → ℕ → ℕ → TimerMaster
appended m timer jiffies =
    let p = place m.timer_jiffies jiffies in
    set_vec m p.0 p.1 (m.vecs p.0 p.1 ++ slot timer jiffies ∷ [])

pub internal_add_timer_lem :
    (m : TimerMaster) (timer jiffies : ℕ)
    → m.timer_jiffies ≤ jiffies
    → jiffies < m.timer_jiffies + 2 ^ 32
    → internal_add_timer m timer jiffies ≡ some (appended m timer jiffies)
unfolding internal_add_timer
internal_add_timer_lem m timer jiffies h b =
    rw (find_vec-place m.timer_jiffies jiffies h b, push_slot)

-- A property of all lists, after one of them is written.
pub set_vec_cases {ℓ} :
    (P : ℕ → ℕ → List TimerSlot → Type ℓ) (m : TimerMaster) (i j : ℕ) (l : List TimerSlot)
    → P i j l
    → ((a b : ℕ) → P a b (m.vecs a b))
    → (a b : ℕ) → P a b ((set_vec m i j l).vecs a b)
set_vec_cases P m i j l here others a b = elim (ℕ_discrete a i) [
  | yes p ↦ elim (ℕ_discrete b j) [
    | yes q ↦ rw (p, q, set_vec_self m i j l) here
    | no q ↦ rw (p, set_vec_ne_list m i j l b q) (others i b)
  ]
  | no p ↦ rw (set_vec_ne_vec m i j l a b p) (others a b)
]

pub set_vec-IsWheel :
    (now i j : ℕ) (m : TimerMaster) (l : List TimerSlot)
    → IsWheel now m.vecs
    → All (λ s. Fits now i j s.jiffies) l
    → IsWheel now (set_vec m i j l).vecs
set_vec-IsWheel now i j m l w h =
    set_vec_cases (λ a b ss. All (λ s. Fits now a b s.jiffies) ss) m i j l h w

place_bounds : (now jiffies : ℕ) → let p = place now jiffies in (p.0 < 4) × (p.1 < 256)
place_bounds now jiffies = ground arith

-- The wheel stays well formed, and holds one slot more.
pub appended-IsWheel :
    (m : TimerMaster) (timer jiffies : ℕ)
    → IsWheel m.timer_jiffies m.vecs
    → m.timer_jiffies ≤ jiffies
    → jiffies < m.timer_jiffies + 2 ^ 32
    → IsWheel m.timer_jiffies (appended m timer jiffies).vecs
appended-IsWheel m timer jiffies w h b =
    let p = place m.timer_jiffies jiffies in
    set_vec-IsWheel m.timer_jiffies p.0 p.1 m _ w (
      All-append _ (m.vecs p.0 p.1) (slot timer jiffies ∷ []) (w p.0 p.1)
        (place-Fits m.timer_jiffies jiffies h b, tt))

pub pending-appended :
    (p : TimerSlot → Bool) (m : TimerMaster) (timer jiffies : ℕ)
    → pending p (appended m timer jiffies) ≡ pending p m + count p (slot timer jiffies ∷ [])
pending-appended p m timer jiffies =
    let c = place m.timer_jiffies jiffies in
    omega (
      arith,
      pending-set_vec m c.0 c.1 (m.vecs c.0 c.1 ++ slot timer jiffies ∷ []) p
          (place_bounds m.timer_jiffies jiffies).0 (place_bounds m.timer_jiffies jiffies).1,
      count-append p (m.vecs c.0 c.1) (slot timer jiffies ∷ []),
    )

-- A slot for a time that is past has no list: the `CHECK` fails.
pub internal_add_timer_past :
    (m : TimerMaster) (timer jiffies : ℕ)
    → jiffies < m.timer_jiffies
    → m.timer_jiffies < 2 ^ 31
    → internal_add_timer m timer jiffies ≡ none
unfolding internal_add_timer
internal_add_timer_past m timer jiffies h b =
    rw (find_vec-past m.timer_jiffies jiffies h b, push_slot)

-- The clock stays.
pub internal_add_timer-clock :
    (m : TimerMaster) (timer jiffies : ℕ)
    → (internal_add_timer m timer jiffies ≡ none)
      ⊎ ((m' : TimerMaster) × (internal_add_timer m timer jiffies ≡ some m')
          × (m'.timer_jiffies ≡ m.timer_jiffies))
unfolding internal_add_timer
internal_add_timer-clock m timer jiffies =
    go (find_vec 4 0 1 (idx_u64 jiffies m.timer_jiffies) jiffies)
  where
    go :
        (c : Option (ℕ × ℕ))
        → (push_slot m (slot timer jiffies) c ≡ none)
          ⊎ ((m' : TimerMaster) × (push_slot m (slot timer jiffies) c ≡ some m')
              × (m'.timer_jiffies ≡ m.timer_jiffies))
    go none = inl refl
    go (some (i, j)) = inr (set_vec m i j _, refl, refl)
