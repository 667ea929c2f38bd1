-- ===== src/Timer/Cascade.antt =====
-- TimerMaster.cpp, `CascadeTimers`: the list that is taken is emptied, its slots go to lower vectors,
-- and no slot is lost.
use tt3d.Base.{
  ℕ, zero, suc, ◌+◌, ◌%◌, ◌^◌, ◌≤◌, ◌<◌, ◌≡◌, ◌≢◌, ◌∙◌, refl, sym, ap, subst, arith, Bool, List, [],
  ◌∷◌, some, All, length,
}
use native.Mathlib.Decide.{ℕ_discrete}
use tt3d.Timer.{TimerSlot, TimerMaster, set_vec, index_at, internal_add_timer, cascade_loop}
use tt3d.Timer.Place.{Fits, place}
use tt3d.Timer.Count.{
  count, pending, pending-set_vec, set_vec_self, set_vec_ne_list, set_vec_ne_vec,
}
use tt3d.Timer.Insert.{
  IsWheel, appended, internal_add_timer_lem, set_vec-IsWheel, appended-IsWheel, pending-appended,
}

-- The time between two visits of a vector's list and the next one.
abbrev pub turn : ℕ → ℕ
turn zero = 1
turn (suc zero) = 256
turn (suc (suc zero)) = 65536
turn (suc (suc (suc zero))) = 16777216
turn (suc (suc (suc (suc i)))) = 0

-- Where a slot of the list that is taken goes: to a lower vector, and to no list that is taken now.
record Lands (k now jiffies : ℕ) : Type 0 where
  ahead : now ≤ jiffies
  near : jiffies < now + 2 ^ 32
  lower : (place now jiffies).0 < k
  elsewhere : 1 ≤ (place now jiffies).0 → (place now jiffies).1 ≢ index_at (place now jiffies).0 now

-- In turns of the vector below: `q` of them make one turn.
lands :
    (k now jiffies : ℕ)
    → 1 ≤ k
    → now % turn k ≡ 0
    → Fits now k (index_at k now) jiffies
    → Lands k now jiffies
lands zero now jiffies h z f = absurd (omega arith)
lands (suc zero) now jiffies h z f = record {
  ahead = omega arith;
  near = omega arith;
  lower = ground arith;
  elsewhere = ground arith;
}
lands (suc (suc zero)) now jiffies h z f = record {
  ahead = omega arith;
  near = omega arith;
  lower = ground arith;
  elsewhere = ground arith;
}
lands (suc (suc (suc zero))) now jiffies h z f = record {
  ahead = omega arith;
  near = omega arith;
  lower = ground arith;
  elsewhere = ground arith;
}
lands (suc (suc (suc (suc k)))) now jiffies h z f = elim f [ ]

-- What the call for vector `k` does.
pub record Cascaded (k : ℕ) (m m' : TimerMaster) : Type 0 where
  pub clock : m'.timer_jiffies ≡ m.timer_jiffies
  pub wheel : IsWheel m.timer_jiffies m'.vecs
  pub emptied : m'.vecs k (index_at k m.timer_jiffies) ≡ []
  pub kept :
      (i : ℕ)
      → 1 ≤ i
      → m.vecs i (index_at i m.timer_jiffies) ≡ []
      → m'.vecs i (index_at i m.timer_jiffies) ≡ []
  pub same : (p : TimerSlot → Bool) → pending p m' ≡ pending p m

module _ (k : ℕ) (m : TimerMaster) (s : TimerSlot) (rest : List TimerSlot) where
  unlinked : TimerMaster
  unlinked = set_vec m k (index_at k m.timer_jiffies) rest

  moved : TimerMaster
  unfolding unlinked
  moved = appended unlinked s.timer s.jiffies

-- A list that is taken now changes only if it is the one being emptied.
moved_others :
    (k : ℕ) (m : TimerMaster) (s : TimerSlot) (rest : List TimerSlot) (i : ℕ)
    → Lands k m.timer_jiffies s.jiffies
    → 1 ≤ i
    → (moved k m s rest).vecs i (index_at i m.timer_jiffies)
      ≡ (unlinked k m s rest).vecs i (index_at i m.timer_jiffies)
unfolding moved
moved_others k m s rest i land one = elim (ℕ_discrete i p.0) [
  | yes e ↦ rw e (
      set_vec_ne_list (unlinked k m s rest) p.0 p.1 _ (index_at p.0 m.timer_jiffies)
        (λ q. land.elsewhere (subst (λ t. 1 ≤ t) e one) (sym q)))
  | no ne ↦ set_vec_ne_vec (unlinked k m s rest) p.0 p.1 _ i (index_at i m.timer_jiffies) ne
]
  where
    p : ℕ × ℕ
    p = place m.timer_jiffies s.jiffies

moved_list :
    (k : ℕ) (m : TimerMaster) (s : TimerSlot) (rest : List TimerSlot)
    → Lands k m.timer_jiffies s.jiffies
    → 1 ≤ k
    → (moved k m s rest).vecs k (index_at k m.timer_jiffies) ≡ rest
unfolding unlinked
moved_list k m s rest land one =
    moved_others k m s rest k land one ∙ set_vec_self m k (index_at k m.timer_jiffies) rest

moved_kept :
    (k : ℕ) (m : TimerMaster) (s : TimerSlot) (rest : List TimerSlot) (i : ℕ)
    → Lands k m.timer_jiffies s.jiffies
    → 1 ≤ i
    → i ≢ k
    → (moved k m s rest).vecs i (index_at i m.timer_jiffies) ≡ m.vecs i (index_at i m.timer_jiffies)
unfolding unlinked
moved_kept k m s rest i land one ne =
    moved_others k m s rest i land one
    ∙ set_vec_ne_vec m k (index_at k m.timer_jiffies) rest i (index_at i m.timer_jiffies) ne

moved-IsWheel :
    (k : ℕ) (m : TimerMaster) (s : TimerSlot) (rest : List TimerSlot)
    → Lands k m.timer_jiffies s.jiffies
    → IsWheel m.timer_jiffies m.vecs
    → All (λ s. Fits m.timer_jiffies k (index_at k m.timer_jiffies) s.jiffies) rest
    → IsWheel m.timer_jiffies (moved k m s rest).vecs
unfolding moved
moved-IsWheel k m s rest land w h =
    appended-IsWheel (unlinked k m s rest) s.timer s.jiffies
      (set_vec-IsWheel m.timer_jiffies k (index_at k m.timer_jiffies) m rest w h) land.ahead
      land.near

moved_same :
    (k : ℕ) (m : TimerMaster) (s : TimerSlot) (rest : List TimerSlot) (p : TimerSlot → Bool)
    → k < 4
    → m.vecs k (index_at k m.timer_jiffies) ≡ s ∷ rest
    → pending p (moved k m s rest) ≡ pending p m
unfolding moved count
moved_same k m s rest p hk e = ground (
  arith,
  pending-appended p (unlinked k m s rest) s.timer s.jiffies,
  pending-set_vec m k (index_at k m.timer_jiffies) rest p hk (omega arith),
  ap (count p) e,
)

-- One slot moved, and then the rest of the loop.
step-Cascaded :
    (k : ℕ) (m : TimerMaster) (s : TimerSlot) (rest : List TimerSlot) {m' : TimerMaster}
    → k < 4
    → 1 ≤ k
    → m.vecs k (index_at k m.timer_jiffies) ≡ s ∷ rest
    → Lands k m.timer_jiffies s.jiffies
    → Cascaded k (moved k m s rest) m'
    → Cascaded k m m'
unfolding moved unlinked
step-Cascaded k m s rest hk one e land c = record {
  clock = c.clock;
  wheel = c.wheel;
  emptied = c.emptied;
  kept = λ i h q. elim (ℕ_discrete i k) [
    | yes same ↦ rw same c.emptied
    | no ne ↦ c.kept i h (moved_kept k m s rest i land h ne ∙ q)
  ];
  same = λ p. c.same p ∙ moved_same k m s rest p hk e;
}

added :
    (k : ℕ) (m : TimerMaster) (s : TimerSlot) (rest : List TimerSlot)
    → Lands k m.timer_jiffies s.jiffies
    → internal_add_timer (unlinked k m s rest) s.timer s.jiffies ≡ some (moved k m s rest)
unfolding moved unlinked
added k m s rest land =
    internal_add_timer_lem (unlinked k m s rest) s.timer s.jiffies land.ahead land.near

pub cascade_loop-Cascaded :
    (k fuel : ℕ) (l : List TimerSlot) (m : TimerMaster)
    → 1 ≤ k
    → k < 4
    → m.timer_jiffies % turn k ≡ 0
    → IsWheel m.timer_jiffies m.vecs
    → m.vecs k (index_at k m.timer_jiffies) ≡ l
    → length l < fuel
    → (m' : TimerMaster) × (cascade_loop fuel k (index_at k m.timer_jiffies) m ≡ some m')
      × Cascaded k m m'
unfolding cascade_loop moved
cascade_loop-Cascaded k zero l m one hk z w e h = absurd (omega arith)
cascade_loop-Cascaded k (suc fuel) [] m one hk z w e h = (
  m,
  rw (e, cascade_loop),
  record { clock = refl; wheel = w; emptied = e; kept = λ i _ q. q; same = λ p. refl },
)
cascade_loop-Cascaded k (suc fuel) (s ∷ rest) m one hk z w e h =
    let fits = subst (All _) e (w k (index_at k m.timer_jiffies)) in
    let land = lands k m.timer_jiffies s.jiffies one z fits.0 in
    let later =
      cascade_loop-Cascaded k fuel rest (moved k m s rest) one hk z
        (moved-IsWheel k m s rest land w fits.1) (moved_list k m s rest land one) (omega arith) in
    (
      later.0,
      rw (e, cascade_loop, added k m s rest land) later.1,
      step-Cascaded k m s rest hk one e land later.2,
    )
