-- ===== src/Threads/Notify.antt =====
-- Notifier.hpp: how many calls of `Notify` it takes.
use tt3d.Base.{
  inl, inr, ℕ, zero, suc, ◌+◌, ◌-◌, ◌<◌, ◌≡◌, ◌∙◌, refl, ap, arith, true, false, leb, ◌==◌,
  Bool-cases,
}
use tt3d.Threads.{Notifier, pos, notify, dec, inc, counted, negate, new_notifier}

-- `Notify` so many times.
abbrev pub notifies : ℕ → Notifier → Notifier
notifies zero n = n
notifies (suc k) n = notifies k (notify n)

notifies_past : (k : ℕ) (n : Notifier) → n.notified ≡ true → (notifies k n).notified ≡ true
unfolding notify dec counted
notifies_past zero n h = h
notifies_past (suc k) n h = notifies_past k (notify n) (ground arith)

notifies_count : (k : ℕ) (n : Notifier) → (notifies k n).count ≡ n.count - k
unfolding notify dec counted
notifies_count zero n = omega arith
notifies_count (suc k) n = ground (arith, notifies_count k (notify n))

notify-new : (c : ℕ) → 0 < c → notify (new_notifier (c + 1)) ≡ new_notifier c
unfolding notify dec counted new_notifier
notify-new c h = ground arith

notify-last : (c : ℕ) → c ≡ 1 → (notify (new_notifier c)).notified ≡ true
unfolding notify dec counted new_notifier
notify-last c h = ground arith

fresh : (c : ℕ) → (new_notifier c).notified ≡ false
unfolding new_notifier
fresh c = refl

notifies-notified : (k c : ℕ) → 0 < c → (notifies k (new_notifier c)).notified ≡ leb c k
notifies-notified zero c h = ground (arith, fresh c)
notifies-notified (suc k) c h = elim (Bool-cases (c == 1)) [
  | inl e ↦ notifies_past k (notify (new_notifier c)) (notify-last c (ground arith)) ∙ ground arith
  | inr e ↦
      ap (λ t. (notifies k (notify (new_notifier t))).notified) (less_one c (ground arith))
      ∙ ap (λ t. (notifies k t).notified) (notify-new (c - 1) (ground arith))
      ∙ notifies-notified k (c - 1) (ground arith)
      ∙ ground arith
]
  where
    less_one : (c : ℕ) → 0 < c → c ≡ (c - 1) + 1
    less_one c h = omega arith

-- A new notifier with a positive count is notified by exactly the count's number of calls, and its count goes down to 0
-- and no further.
pub notifies-count :
    (k c : ℕ)
    → 0 < c
    → ((notifies k (new_notifier c)).count ≡ c - k)
      × ((notifies k (new_notifier c)).notified ≡ leb c k)
unfolding new_notifier
notifies-count k c h = (notifies_count k (new_notifier c), notifies-notified k c h)

notifies-down : (m c : ℕ) → 0 < c → notifies m (new_notifier (c + m)) ≡ new_notifier c
notifies-down zero c h = ap new_notifier (omega arith)
notifies-down (suc m) c h =
    ap (λ t. notifies m (notify (new_notifier t))) (omega arith)
    ∙ ap (notifies m) (notify-new (c + m) (omega arith))
    ∙ notifies-down m c h

inc-new : (m c : ℕ) → 0 < c → inc (pos m) (new_notifier c) ≡ new_notifier (c + m)
unfolding inc dec counted negate new_notifier
inc-new zero c h = ground arith
inc-new (suc m) c h = ground arith

-- Before a new notifier is notified, calls of `Notify` take away what an `Inc` added.
pub inc-notifies : (m c : ℕ) → 0 < c → notifies m (inc (pos m) (new_notifier c)) ≡ new_notifier c
inc-notifies m c h = ap (notifies m) (inc-new m c h) ∙ notifies-down m c h
