-- ===== src/Future/Forks.antt =====
-- `add_fork_task` of include/daw/fs/impl/future_result_impl.h: a task for each function of a fork, on
-- one semaphore, in any interleaving. A function is seen by what it does with the argument.
use function_stream.Base.{
  ℕ, ◌≡◌, append-nil, length-map, refl, ap, sym, ◌∙◌, true, List, [], ◌∷◌, map, modify, run,
  Outcome, returns, ◌>>=◌,
}
use function_stream.Latch.{can_pass}
use function_stream.Group.{Group, scoped_group, Reach}
use function_stream.Group.Order.{wait_finds_all}
use function_stream.Parallel.Parts.{located}
use function_stream.Parallel.Updates.{update_at, updated, updates-located}
use function_stream.Future.{MemberData, fresh, from_code}

-- The futures that `fork` made, which the tasks share with its caller.
abbrev pub Results : Type 0 → Type 0
Results R = List (Outcome (MemberData R))

module _ {R : Type 0} where
  -- `r->from_code( func, arg )` on the future of the function.
  unfoldable pub fork_task : ℕ × Outcome R → Results R → Results R
  fork_task (n, func) results = modify results n (λ r. r >>= from_code func)

  -- The group that `add_fork_task` schedules, every task being accepted, with its scope guard.
  unfoldable pub add_fork_task : List (Outcome R) → Group (ℕ × Outcome R) (Results R)
  add_fork_task funcs = scoped_group (located 0 funcs) (map (λ func. returns fresh) funcs)

module _ {R : Type 0} where
  fork_task-update :
      (ts : List (ℕ × Outcome R)) (results : Results R)
      → run fork_task ts results ≡ run (update_at (λ func r. r >>= from_code func)) ts results
  unfolding fork_task
  fork_task-update [] results = refl
  fork_task-update (t ∷ ts) results = fork_task-update ts (fork_task t results)

  updated-fresh :
      (funcs : List (Outcome R))
      → updated (λ func r. r >>= from_code func) funcs (map (λ func. returns fresh) funcs)
        ≡ map (λ func. from_code func fresh) funcs
  updated-fresh [] = refl
  updated-fresh (func ∷ funcs) = ap (◌∷◌ (from_code func fresh)) (updated-fresh funcs)

  -- Whenever a waiter passes the semaphore of a fork, whatever the interleaving was, each future of
  -- the fork is in the state that its own function leaves, called once, on a new future.
  pub forks_deliver :
      (funcs : List (Outcome R)) {g : Group (ℕ × Outcome R) (Results R)}
      → Reach fork_task (add_fork_task funcs) g
      → can_pass g.sem ≡ true
      → g.memory ≡ map (λ func. from_code func fresh) funcs
  unfolding add_fork_task
  forks_deliver funcs {g} r p =
      let (_, _, order, left) = wait_finds_all fork_task r p in
      left
      ∙ fork_task-update g.finished (map (λ func. returns fresh) funcs)
      ∙ ap (run (update_at (λ func r. r >>= from_code func)) g.finished)
          (sym (append-nil (map (λ func. returns fresh) funcs)))
      ∙ updates-located (λ func r. r >>= from_code func) [] (map (λ func. returns fresh) funcs) []
          funcs 0 refl order (length-map _ funcs)
      ∙ append-nil _
      ∙ updated-fresh funcs
