-- ===== src/Scheduler/Stealing.antt =====
-- A worker finds a task wherever one can be had.
use function_stream.Base.{
  ℕ, zero, suc, ◌+◌, ◌-◌, ◌≤◌, ◌<◌, ◌≡◌, refl, subst, Bool, true, false, List, [], ◌∷◌, ◌++◌,
  length, get_elem?, modify, Option, none, some, Outcome, returns, ◌>>=◌, arith, All, ◌⊎◌, inl, inr,
}
use native.Mathlib.Decide.{ℕ_discrete, dec_lt}
use function_stream.Parallel.{count_up}
use function_stream.Queue.{ConcurrentQueue, try_pop_front}
use function_stream.Scheduler.{
  FixedTaskScheduler, size, sweep, stop_or, with_queues, steal_order, run_next_task,
}

-- `n` stands in the list.
abbrev pub Visits : ℕ → List ℕ → Type 0
Visits n [] = ⊥
Visits n (m ∷ ms) = (n ≡ m) ⊎ Visits n ms

pub Visits-append : (n : ℕ) (ms ks : List ℕ) → Visits n ms ⊎ Visits n ks → Visits n (ms ++ ks)
Visits-append n [] ks (inl h) = absurd h
Visits-append n [] ks (inr h) = h
Visits-append n (m ∷ ms) ks (inl (inl e)) = inl e
Visits-append n (m ∷ ms) ks (inl (inr h)) = inr (Visits-append n ms ks (inl h))
Visits-append n (m ∷ ms) ks (inr h) = inr (Visits-append n ms ks (inr h))

pub Visits-count_up : (n k m : ℕ) → k ≤ n → n < k + m → Visits n (count_up k m)
unfolding count_up
Visits-count_up n k zero h p = absurd (omega arith)
Visits-count_up n k (suc m) h p = elim (ℕ_discrete n k) [
  | yes e ↦ inl e
  | no ne ↦ inr (Visits-count_up n (k + 1) m (omega arith) (omega arith))
]

pub All-count_up : (n k m : ℕ) → k + m ≤ n → All (λ i. i < n) (count_up k m)
unfolding count_up
All-count_up n k zero h = tt
All-count_up n k (suc m) h = (omega arith, All-count_up n (k + 1) m (omega arith))

pub All-append {ℓ κ} :
    {A : Type ℓ} (P : A → Type κ) (xs ys : List A) → All P xs → All P ys → All P (xs ++ ys)
All-append P [] ys h k = k
All-append P (x ∷ xs) ys h k = (h.0, All-append P xs ys h.1 k)

-- Every queue is visited, and no other index.
pub steal_order-Visits : (id n m : ℕ) → id < n → m < n → Visits m (steal_order id n)
unfolding steal_order
steal_order-Visits id n m h k = elim (ℕ_discrete m id) [
  | yes e ↦ inl e
  | no ne ↦ inr (
      Visits-append m (count_up (id + 1) (n - (id + 1))) (count_up 0 id) (elim (dec_lt m id) [
        | yes below ↦ inr (Visits-count_up m 0 id (omega arith) (omega arith))
        | no above ↦ inl (Visits-count_up m (id + 1) (n - (id + 1)) (omega arith) (omega arith))
      ]))
]

pub steal_order-All : (id n : ℕ) → id < n → All (λ i. i < n) (steal_order id n)
unfolding steal_order
steal_order-All id n h = (
  h,
  All-append (λ i. i < n) (count_up (id + 1) (n - (id + 1))) (count_up 0 id)
      (All-count_up n (id + 1) (n - (id + 1)) (omega arith)) (All-count_up n 0 id (omega arith)),
)

pub get_elem?-lt {ℓ} :
    {A : Type ℓ} (xs : List A) (i : ℕ) → i < length xs → (x : A) × (get_elem? xs i ≡ some x)
get_elem?-lt [] i h = absurd (omega arith)
get_elem?-lt (x ∷ xs) zero h = (x, refl)
get_elem?-lt (x ∷ xs) (suc i) h = get_elem?-lt xs i (omega arith)

module _ {T : Type 0} (free : ℕ → Bool) where
  -- Queue `n` would give task `t`, and `rest` be left in it.
  abbrev pub Gives : List (ConcurrentQueue T) → ℕ → T → List T → Type 0
  Gives qs n t rest = (free n ≡ true) × (get_elem? qs n ≡ some (record { items = t ∷ rest }))

  -- A sweep takes the front of a visited queue, or no visited queue gives anything.
  abbrev Swept :
      List ℕ → List (ConcurrentQueue T) → Outcome (Option T × List (ConcurrentQueue T)) → Type 0
  Swept ns qs o =
      ((n : ℕ) × (t : T) × (rest : List T) × Gives qs n t rest
        × (o ≡ returns (some t, modify qs n (λ _. record { items = rest }))))
      ⊎ (((n : ℕ) (t : T) (rest : List T) → Visits n ns → ¬ Gives qs n t rest)
          × (o ≡ returns (none, qs)))

  -- One attempt that gives nothing.
  skip-Swept :
      (n : ℕ) (ns : List ℕ) (qs : List (ConcurrentQueue T))
      → ((t : T) (rest : List T) → ¬ Gives qs n t rest)
      → Swept ns qs (sweep free ns qs)
      → Swept (n ∷ ns) qs (sweep free ns qs)
  skip-Swept n ns qs dry (inl h) = inl h
  skip-Swept n ns qs dry (inr (h, e)) = inr (
    (λ m t rest v g.
        or v g (λ same g. dry t rest (subst (λ k. Gives qs k t rest) same g)) (h m t rest)),
    e,
  )
    where
      or :
          {m : ℕ} {G : Type 0}
          → (m ≡ n) ⊎ Visits m ns
          → G
          → ((m ≡ n) → G → ⊥)
          → (Visits m ns → G → ⊥)
          → ⊥
      or (inl e) g f k = f e g
      or (inr v) g f k = k v g

  -- The attempt on queue `n`, whose items are `items`.
  attempt :
      (n : ℕ) (ns : List ℕ) (qs : List (ConcurrentQueue T)) (items : List T) (b : Bool)
      → get_elem? qs n ≡ some (record { items = items })
      → free n ≡ b
      → Swept ns qs (sweep free ns qs)
      → Swept
          (n ∷ ns)
          qs
          (stop_or (try_pop_front b (record { items = items })) n qs (sweep free ns qs))
  unfolding try_pop_front
  attempt n ns qs (t ∷ rest) true e f s = inl (n, t, rest, (f, e), refl)
  attempt n ns qs [] true e f s = skip-Swept n ns qs (λ t rest g. ground (arith, g.1)) s
  attempt n ns qs items false e f s = skip-Swept n ns qs (λ t rest g. ground (arith, g.0)) s

  sweep-Swept :
      (ns : List ℕ) (qs : List (ConcurrentQueue T))
      → All (λ n. n < length qs) ns
      → Swept ns qs (sweep free ns qs)
  unfolding sweep
  sweep-Swept [] qs h = inr ((λ n t rest v. absurd v), refl)
  sweep-Swept (n ∷ ns) qs h =
      let (q, e) = get_elem?-lt qs n h.0 in
      rw e (attempt n ns qs q.items (free n) e refl (sweep-Swept ns qs h.1))

  -- `run_next_task` of an existing queue takes the front task of a queue whose mutex is free, and
  -- leaves all else as it was; it comes back empty only if every queue was locked or empty.
  pub run_next_task-finds :
      (id : ℕ) (ts : FixedTaskScheduler T)
      → id < size ts
      → ((n : ℕ) × (t : T) × (rest : List T) × Gives ts.tasks n t rest
          × (run_next_task free id ts
              ≡ returns
                  (some t, record ts { tasks = modify ts.tasks n (λ _. record { items = rest }) })))
        ⊎ (¬ ((n : ℕ) × (t : T) × (rest : List T) × (n < size ts) × Gives ts.tasks n t rest)
            × (run_next_task free id ts ≡ returns (none, ts)))
  unfolding run_next_task
  run_next_task-finds id ts h =
      outcome (sweep-Swept (steal_order id (size ts)) ts.tasks (steal_order-All id (size ts) h))
    where
      outcome :
          {o : Outcome (Option T × List (ConcurrentQueue T))}
          → Swept (steal_order id (size ts)) ts.tasks o
          → ((n : ℕ) × (t : T) × (rest : List T) × Gives ts.tasks n t rest
              × ((o >>= with_queues ts)
                  ≡ returns (
                    some t,
                    record ts { tasks = modify ts.tasks n (λ _. record { items = rest }) },
                  )))
            ⊎ (¬ ((n : ℕ) × (t : T) × (rest : List T) × (n < size ts) × Gives ts.tasks n t rest)
                × ((o >>= with_queues ts) ≡ returns (none, ts)))
      outcome (inl (n, t, rest, g, e)) = inl (n, t, rest, g, rw e)
      outcome (inr (dry, e)) =
          inr ((λ (n, t, rest, k, g). dry n t rest (steal_order-Visits id (size ts) n h k) g), rw e)
