-- ===== src/Services/Robin.antt =====
-- IOServicePool.cpp: the services are handed out, and given to the threads, in turn.
use tt3d.Base.{
  ℕ, zero, suc, ◌+◌, ◌%◌, ◌<◌, ◌≡◌, ◌∙◌, refl, sym, ap, arith, true, List, [], ◌∷◌, ◌++◌, Option,
  some, append-nil, append_assoc, ◌==◌, if◌then◌else◌, ◌>>=◌, inl, inr, Bool-cases,
}
use tt3d.Threads.{ThreadPool, push_task}
use tt3d.Threads
use native.Mathlib.Nat.{mod-lt, mod_self, mod-eq_of_lt, mod-add-mod, zero-mod}
use tt3d.Services.{
  new_io_service_pool, IoServicePool, start, start_work, get_io_service, is_running, is_empty,
}

-- So many calls of `GetIOService`: the services that they return.
abbrev pub gets : ℕ → IoServicePool → Option (List ℕ)
gets zero p = some []
gets (suc n) p = do (service, q) ← get_io_service p; rest ← gets n q; some (service ∷ rest)

-- The indices in turn: so many from `k`, of `n`.
abbrev pub in_turn : ℕ → ℕ → ℕ → List ℕ
in_turn zero k n = []
in_turn (suc m) k n = k % n ∷ in_turn m (k + 1) n

-- The index after `k % n`, with its wrap-around.
turn : (k n : ℕ) → k % n < n → (if (k % n + 1) == n then 0 else k % n + 1) ≡ (k + 1) % n
turn k n h = elim (Bool-cases ((k % n + 1) == n)) [
  | inl e ↦ rw e (sym (sym (mod-add-mod k n 1) ∙ ap (λ t. t % n) (equal e) ∙ mod_self n))
  | inr e ↦ rw e (sym (sym (mod-add-mod k n 1) ∙ mod-eq_of_lt (ground arith)))
]
  where
    equal : ((k % n + 1) == n) ≡ true → k % n + 1 ≡ n
    equal e = ground arith

gets-from :
    (m k : ℕ) (p : IoServicePool)
    → 0 < p.services
    → p.next_io_service ≡ k % p.services
    → gets m p ≡ some (in_turn m k p.services)
unfolding get_io_service
gets-from zero k p h e = refl
gets-from (suc m) k p h e =
    let next = (k + 1) % p.services in
    ground (
      arith,
      e,
      mod-lt k h,
      turn k p.services (mod-lt k h),
      gets-from m (k + 1) (record p { next_io_service = next }) h refl,
    )

-- Calls of `GetIOService` never fail while the pool runs, and return its services in turn.
pub gets-in_turn :
    (m : ℕ) (p : IoServicePool)
    → p.next_io_service < p.services
    → gets m p ≡ some (in_turn m p.next_io_service p.services)
gets-in_turn m p h = gets-from m p.next_io_service p (omega arith) (sym (mod-eq_of_lt h))

-- The loop of `Start`.
record Started (m j : ℕ) (p q : IoServicePool) : Type 0 where
  services : q.services ≡ p.services
  work : q.work ≡ p.work ++ in_turn m j p.services
  next : q.next_io_service ≡ p.next_io_service

start_work-Started :
    (m j : ℕ) (p : IoServicePool)
    → 0 < p.services
    → p.num_io_services ≡ p.services
    → (q : IoServicePool) × (start_work m (j % p.services) p ≡ some q) × Started m j p q
unfolding start_work
start_work-Started zero j p h e =
    (p, refl, record { services = refl; work = sym (append-nil p.work); next = refl })
start_work-Started (suc m) j p h e =
    let k = j % p.services in
    let p1 = record p { work = p.work ++ k ∷ []; thread_pool = push_task (some k) p.thread_pool } in
    let (q, r, d) = start_work-Started m (j + 1) p1 h e in
    (
      q,
      ground (arith, mod-lt j h, r, e, mod-add-mod j p.services 1),
      record {
        services = d.services;
        work = d.work ∙ append_assoc p.work (k ∷ []) (in_turn m (j + 1) p.services);
        next = d.next;
      },
    )

-- A pool of at least one service that does not run starts, and its threads are given the services in turn.
pub start-in_turn :
    (p : IoServicePool)
    → 0 < p.num_io_services
    → p.work ≡ []
    → p.services ≡ 0
    → (q : IoServicePool) × (start p ≡ some q)
      × (q.services ≡ p.num_io_services)
      × (q.work ≡ in_turn p.num_threads 0 p.num_io_services)
unfolding start is_running is_empty
start-in_turn p h w s =
    let p1 = record p { services = p.num_io_services; work = [] } in
    let (q, r, d) = start_work-Started p.num_threads 0 p1 h refl in
    (
      record q { thread_pool = Threads.start q.thread_pool },
      ground (arith, r, s, w, zero-mod p.num_io_services),
      d.services,
      d.work,
    )

-- A pool that runs is left alone.
pub start-running : (p : IoServicePool) → is_running p ≡ true → start p ≡ some p
unfolding start
start-running p h = ground arith

-- The pool after `GetIOService`.
pub record Got (p q : IoServicePool) : Type 0 where
  pub running : is_running q ≡ is_running p
  pub small : q.next_io_service < q.services

pub get_io_service-Got :
    (p : IoServicePool)
    → p.next_io_service < p.services
    → (n : ℕ) × (q : IoServicePool) × (get_io_service p ≡ some (n, q)) × Got p q
unfolding get_io_service is_running
get_io_service-Got p h =
    let next = p.next_io_service + 1 in
    (
      p.next_io_service,
      record p { next_io_service = if next == p.services then 0 else next },
      ground (arith, h),
      record { running = refl; small = ground (arith, h) },
    )

-- A new pool, once started, runs and hands out its first service.
pub start-new :
    (n threads : ℕ)
    → 0 < n
    → 0 < threads
    → (q : IoServicePool) × (start (new_io_service_pool n threads) ≡ some q)
      × (is_running q ≡ true)
      × (q.next_io_service < q.services)
unfolding start is_running is_empty new_io_service_pool
start-new n zero h w = absurd (omega arith)
start-new n (suc threads) h w =
    let p = new_io_service_pool n (suc threads) in
    let p1 = record p { services = n; work = [] } in
    let (q, r, d) = start_work-Started (suc threads) 0 p1 h refl in
    (
      record q { thread_pool = Threads.start q.thread_pool },
      ground (arith, r, zero-mod n),
      rw (d.work) refl,
      omega (arith, d.next, d.services),
    )
