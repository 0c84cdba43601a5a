-- ===== src/Future/Forking.antt =====
-- `member_data_t::fork` of include/daw/fs/impl/future_result_impl.h as a whole: the continuation that it
-- installs, with the tasks of `add_fork_task`, and what the futures that it returns give.
use function_stream.Base.{
  ◌≡◌, ◌≢◌, refl, ap, subst, ◌∙◌, Bool, true, not, List, [], ◌∷◌, map, if◌then◌else◌, Outcome,
  returns, throws, faults, ◌>>=◌, All, ℕ,
}
use mathlib.Core.Path.{ap₂}
use function_stream.Latch.{notify, can_pass}
use function_stream.Queue.{Spin, stopped}
use function_stream.Group.{Group, Reach}
use function_stream.Future.{
  MemberData, Expected, value, fresh, fork, from_code, set_exception, set_value, set_expected,
  pass_next, get,
}
use function_stream.Future.Forks.{Results, fork_task, add_fork_task, forks_deliver}
use function_stream.Future.Refused.{expected_from_code}

-- What a call of the continuation does with the futures that `fork` returned: it gives the exception to
-- all of them, or has tasks for them.
pub data Forked (S : Type 0) : Type 0 where
  failed : Results S → Forked S
  tasks : Group (ℕ × Outcome S) (Results S) → Forked S

module _ {R S : Type 0} (added : Bool) (funcs : List (R → Outcome S)) where
  -- `added` says whether the task of `ts->add_task( sem )` is accepted.
  unfoldable pub fork_continuation : Expected R → Outcome (Forked S)
  unfolding add_fork_task set_exception
  fork_continuation (value v) =
      if not added then throws else returns (tasks (add_fork_task (map (λ func. func v) funcs)))
  fork_continuation v = returns (failed (map (λ func. set_exception fresh) funcs))

  -- The calls that the future has logged, of which there is one.
  unfoldable pub run_fork : List (Expected R) → Outcome (Forked S)
  unfolding fork_continuation
  run_fork [] = faults
  run_fork (v ∷ calls) = fork_continuation v

-- The futures, when whoever waits for the semaphore of the tasks has passed it.
abbrev pub Settles : {S : Type 0} → Forked S → Results S → Type 0
Settles (failed results) results' = results' ≡ results
Settles {S} (tasks g) results' =
    (h : Group (ℕ × Outcome S) (Results S)) × Reach fork_task g h
    × (can_pass h.sem ≡ true)
    × (results' ≡ h.memory)

-- What `get` gives on each.
abbrev pub get_each : {S : Type 0} → Results S → List (Outcome (Spin (Outcome S)))
get_each results = map (λ r. r >>= λ d. returns (get d)) results

got :
    {S : Type 0} (o : Outcome S)
    → o ≢ faults
    → (from_code o fresh >>= λ d. returns (get d)) ≡ returns (stopped o)
unfolding from_code set_value set_exception set_expected get notify can_pass
got (returns v) h = refl
got throws h = refl
got faults h = absurd (h refl)

module _ {R S : Type 0} where
  abbrev Total : (R → Outcome S) → Type 0
  Total func = (v : R) → func v ≢ faults

  map-got :
      (v : R) (funcs : List (R → Outcome S))
      → All Total funcs
      → get_each (map (λ func. from_code func fresh) (map (λ func. func v) funcs))
        ≡ map (λ func. returns (stopped (func v))) funcs
  map-got v [] t = refl
  map-got v (func ∷ funcs) t = ap₂ ◌∷◌ (got (func v) (t.0 v)) (map-got v funcs t.1)

  map-failed :
      (funcs : List (R → Outcome S))
      → get_each {S = S} (map (λ func. set_exception fresh) funcs)
        ≡ map (λ func. returns (stopped throws)) funcs
  unfolding set_exception set_expected get notify can_pass
  map-failed [] = refl
  map-failed (func ∷ funcs) = ap (◌∷◌ (returns (stopped throws))) (map-failed funcs)

  -- A fork into functions that is made before the first function has run: the first function's result
  -- calls the continuation once, and when its tasks are done, in whatever interleaving, each future that
  -- `fork` returned gives what its own function does with that result, or throws if the first function
  -- threw.
  pub fork-get :
      (o : Outcome R) (funcs : List (R → Outcome S)) (k : Forked S) (results : Results S)
      → o ≢ faults
      → All Total funcs
      → run_fork true funcs (expected_from_code o ∷ []) ≡ returns k
      → Settles k results
      → ((d : MemberData R) × ((fork fresh >>= from_code o) ≡ returns d)
          × (d.calls ≡ expected_from_code o ∷ []))
        × (get_each results ≡ map (λ func. returns (stopped (o >>= func))) funcs)
  unfolding run_fork fork_continuation fork from_code set_value set_exception set_expected pass_next
      notify
  fork-get (returns v) funcs (failed rs) results h t e s = absurd (cc)
  fork-get (returns v) funcs (tasks g) results h t e (g', r, p, s) = (
    (_, refl, refl),
    ap get_each s
        ∙ ap get_each (
            forks_deliver (map (λ func. func v) funcs)
              (subst (λ g. Reach fork_task g g') {x = g}
                {y = add_fork_task (map (λ func. func v) funcs)} (cc) r)
              p)
        ∙ map-got v funcs t,
  )
  fork-get throws funcs (failed rs) results h t e s =
      ((_, refl, refl), ap get_each s ∙ ap get_each (cc) ∙ map-failed funcs)
  fork-get throws funcs (tasks g) results h t e s = absurd (cc)
  fork-get faults funcs k results h t e s = absurd (h refl)
