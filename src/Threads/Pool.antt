-- ===== src/Threads/Pool.antt =====
-- ThreadPool.hpp: the tasks are taken in the order of their pushes, and a stop lets the workers finish.
use tt3d.Base.{
  ℕ, zero, suc, ◌+◌, ◌<◌, ◌≡◌, ◌∙◌, refl, sym, ap, arith, List, [], ◌∷◌, ◌++◌, Option, none, some,
  map, replicate, length, append-nil, append_assoc, ◌>>=◌,
}
use tt3d.Threads.{ThreadPool, push, pop, push_empty, stop, taken, loop, loops}

-- The tasks that wait in the queue.
abbrev pub tasks : List (Option ℕ) → List ℕ
tasks [] = []
tasks (none ∷ q) = tasks q
tasks (some t ∷ q) = t ∷ tasks q

abbrev pub stops : List (Option ℕ) → ℕ
stops [] = 0
stops (none ∷ q) = stops q + 1
stops (some t ∷ q) = stops q

push_empty-replicate : (n : ℕ) (q : List (Option ℕ)) → push_empty n q ≡ q ++ replicate n none
unfolding push_empty push
push_empty-replicate zero q = sym (append-nil q)
push_empty-replicate (suc n) q =
    push_empty-replicate n (q ++ none ∷ []) ∙ append_assoc q (none ∷ []) (replicate n none)

loop-task :
    (t : ℕ) (q : List (Option ℕ)) (p : ThreadPool)
    → 0 < p.workers
    → loop (record p { queue = some t ∷ q }) ≡ some (record p { queue = q; ran = p.ran ++ t ∷ [] })
unfolding loop pop taken
loop-task t q p h = ground arith

loop-stop :
    (w : ℕ) (q : List (Option ℕ)) (p : ThreadPool)
    → p.workers ≡ suc w
    → loop (record p { queue = none ∷ q }) ≡ some (record p { queue = q; workers = w })
unfolding loop pop taken
loop-stop w q p h = ground arith

zero_add : (n : ℕ) → 0 + n ≡ n
zero_add n = omega arith

suc_add : (m n : ℕ) → suc m + n ≡ suc (m + n)
suc_add m n = omega arith

-- The tasks are taken one by one.
loops-tasks :
    (ts : List ℕ) (n : ℕ) (rest : List (Option ℕ)) (p : ThreadPool)
    → 0 < p.workers
    → loops (length ts + n) (record p { queue = map some ts ++ rest })
      ≡ loops n (record p { queue = rest; ran = p.ran ++ ts })
unfolding loops
loops-tasks [] n rest p h =
    ap (λ k. loops k (record p { queue = rest })) (zero_add n)
    ∙ ap (λ r. loops n (record p { queue = rest; ran = r })) (sym (append-nil p.ran))
loops-tasks (t ∷ ts) n rest p h =
    let p1 = record p { ran = p.ran ++ t ∷ [] } in
    ap (λ k. loops k (record p { queue = some t ∷ (map some ts ++ rest) })) (suc_add (length ts) n)
    ∙ ap (λ o. o >>= loops (length ts + n)) (loop-task t (map some ts ++ rest) p h)
    ∙ loops-tasks ts n rest p1 h
    ∙ ap (λ r. loops n (record p { queue = rest; ran = r })) (append_assoc p.ran (t ∷ []) ts)

loops-stops :
    (w : ℕ) (p : ThreadPool)
    → p.workers ≡ w
    → loops w (record p { queue = replicate w none }) ≡ some (record p { queue = []; workers = 0 })
unfolding loops
loops-stops zero p h = ap (λ w. some (record p { queue = []; workers = w })) h
loops-stops (suc w) p h =
    ap (λ o. o >>= loops w) (loop-stop w (replicate w none) p h)
    ∙ loops-stops w (record p { workers = w }) refl

-- In a pool whose threads all still loop, every task that was pushed before a stop is run, in the order of the pushes, before the last worker ends; as many
-- turns as there are tasks and workers bring the pool to rest.
pub stop-loops :
    (p : ThreadPool) (ts : List ℕ)
    → 0 < p.threads
    → p.workers ≡ p.threads
    → p.queue ≡ map some ts
    → loops (length ts + p.threads) (stop p)
      ≡ some (record p { queue = []; workers = 0; threads = 0; ran = p.ran ++ ts })
unfolding stop
stop-loops p ts h w q =
    let p1 = record p { threads = 0 } in
    ap (loops (length ts + p.threads)) stopped
    ∙ loops-tasks ts p.threads (replicate p.threads none) p1 (omega arith)
    ∙ loops-stops p.threads (record p1 { ran = p.ran ++ ts }) w
  where
    stopped : stop p ≡ record p { queue = map some ts ++ replicate p.threads none; threads = 0 }
    stopped = ground (arith, push_empty-replicate p.threads (map some ts))
