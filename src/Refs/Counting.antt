-- ===== src/Refs/Counting.antt =====
-- Atomic.hpp: what the reference count keeps, and what it does not.
use tt3d.Base.{
  ℕ, zero, suc, ◌+◌, ◌-◌, ◌<◌, ◌≤◌, ◌≡◌, ◌==◌, ◌∙◌, ◌⊎◌, refl, ap, subst, arith, true,
  if◌then◌else◌, inl, inr, Bool-cases,
}
use tt3d.Refs.{
  Object, shared_by, add_ref, swap, dec, release, Steps, begin, add, swapped, decremented,
}

-- The count is that of the references, and of the releases that have not decremented it yet; or the
-- object is deleted, once, and nothing refers to it.
abbrev pub IsCounted : Object → Type 0
IsCounted o =
    ((o.deleted ≡ 0) × (o.count ≡ o.held + o.pending))
    ⊎ ((o.deleted ≡ 1) × (o.count ≡ 0) × (o.held ≡ 0) × (o.pending ≡ 0))

add_ref-IsCounted : (o : Object) → 0 < o.held → IsCounted o → IsCounted (add_ref o)
unfolding add_ref
add_ref-IsCounted o h (inl c) = inl (c.0, omega (arith, c.1))
add_ref-IsCounted o h (inr c) = absurd (omega (arith, h, c))

swap-IsCounted : (o : Object) → 0 < o.held → IsCounted o → IsCounted (swap o)
unfolding swap
swap-IsCounted o h c = ground arith

dec-IsCounted : (o : Object) → 0 < o.pending → IsCounted o → IsCounted (dec o)
unfolding dec
dec-IsCounted o h c = ground arith

-- Whatever the threads that share an object do, and in whatever order their operations come: as long as one
-- holds a reference or is about to decrement the count, the object is not deleted, and the count is the number of
-- these; and it is never deleted twice.
pub steps-IsCounted : (k : ℕ) (o : Object) → Steps (shared_by k) o → IsCounted o
steps-IsCounted k o begin = inl (refl, omega arith)
steps-IsCounted k o (add {p = p} s h) = add_ref-IsCounted p h (steps-IsCounted k p s)
steps-IsCounted k o (swapped {p = p} s h) = swap-IsCounted p h (steps-IsCounted k p s)
steps-IsCounted k o (decremented {p = p} s h) = dec-IsCounted p h (steps-IsCounted k p s)

abbrev pub releases : ℕ → Object → Object
releases zero o = o
releases (suc n) o = releases n (release o)

release-shared : (k : ℕ) → 1 < k → release (shared_by k) ≡ shared_by (k - 1)
unfolding release
release-shared k h = ground arith

release-last : (release (shared_by 1)).deleted ≡ 1
unfolding release
release-last = refl

-- Releases one after the other delete the object with the last one, and not before.
pub releases-deleted :
    (n k : ℕ) → n ≤ k → 0 < k → (releases n (shared_by k)).deleted ≡ (if n == k then 1 else 0)
releases-deleted zero k h p = ground arith
releases-deleted (suc zero) k h p = elim (Bool-cases (k == 1)) [
  | inl e ↦ ap (λ j. (release (shared_by j)).deleted) (one e) ∙ release-last ∙ ground (arith, e)
  | inr e ↦ ap (λ o. o.deleted) (release-shared k (ground arith)) ∙ ground arith
]
  where
    one : (k == 1) ≡ true → k ≡ 1
    one e = ground arith
releases-deleted (suc (suc n)) k h p =
    ap (λ o. (releases (suc n) o).deleted) (release-shared k (omega arith))
    ∙ releases-deleted (suc n) (k - 1) (omega arith) (omega arith)
    ∙ ground arith

-- Two or more threads that all fail the compare-and-swap before one of them decrements the count.
abbrev pub failed : ℕ → ℕ → Object
failed k n = record { count = k; held = k - n; pending = n; deleted = 0 }

swap-failed : (k n : ℕ) → 1 < k → swap (failed k n) ≡ failed k (suc n)
unfolding swap
swap-failed k n h = ground arith

all_fail : (k n : ℕ) → 1 < k → n ≤ k → Steps (shared_by k) (failed k n)
all_fail k zero h b =
    subst (Steps (shared_by k))
      (ap (λ n. record { count = k; held = n; pending = 0; deleted = 0 }) (omega arith)) begin
all_fail k (suc n) h b =
    subst (Steps (shared_by k)) (swap-failed k n h)
      (swapped (all_fail k n h (omega arith)) (omega arith))

abbrev left_over : ℕ → Object
left_over n = record { count = n; held = 0; pending = n; deleted = 0 }

dec-left : (n : ℕ) → dec (left_over (suc n)) ≡ left_over n
unfolding dec
dec-left n = ground arith

all_decrement :
    {k : ℕ} (n : ℕ) → Steps (shared_by k) (left_over n) → Steps (shared_by k) (left_over 0)
all_decrement {k = k} zero s = s
all_decrement {k = k} (suc n) s =
    all_decrement n (subst (Steps (shared_by k)) (dec-left n) (decremented s (omega arith)))

-- Any number of threads from two can release all references of an object so that it is never deleted: the count
-- is 0, no reference is left and no release pending.
pub all_released_undeleted :
    (k : ℕ) → 1 < k → Steps (shared_by k) (record { count = 0; held = 0; pending = 0; deleted = 0 })
all_released_undeleted k h = all_decrement k (
    subst (Steps (shared_by k))
      (ap (λ n. record { count = k; held = n; pending = k; deleted = 0 }) (omega arith))
      (all_fail k k h (omega arith)))
