-- ===== src/Future/Refused.antt =====
-- `from_code` of include/daw/fs/impl/future_result_impl.h on a future that was continued: what becomes
-- of the future of `next` when the task of the continuation is refused.
use function_stream.Base.{
  ◌≡◌, ◌≢◌, refl, Bool, true, false, Outcome, returns, throws, faults, ◌>>=◌,
}
use function_stream.Latch.{notify, can_pass}
use function_stream.Queue.{stopped}
use function_stream.Future.{
  MemberData, Expected, empty, exception, value, fresh, set_expected, set_value, set_exception,
  from_code, pass_next, next, get, continuation,
}
use function_stream.Future.Async.{continue_with, run_calls}

-- `expected_from_code`: what the function returned, or its exception.
abbrev pub expected_from_code : {R : Type 0} → Outcome R → Expected R
expected_from_code (returns v) = value v
expected_from_code throws = exception
expected_from_code faults = empty

module _ {R S : Type 0} (added : Bool) (func : R → Outcome S) where
  -- `from_code` on a future whose continuation is that of `next( func )`, seen by the future of `next`:
  -- an exception that the continuation throws is caught, and passed to the continuation.
  unfoldable pub complete : Outcome R → MemberData S → Outcome (MemberData S)
  unfolding continue_with
  complete faults result = faults
  complete o result = elim (continue_with added func (expected_from_code o) result) [
    | returns d ↦ returns d
    | throws ↦ continue_with added func exception result
    | faults ↦ faults
  ]

-- What is left when the second function runs.
filled :
    {S : Type 0} (o : Outcome S)
    → o ≢ faults
    → (elim (from_code o fresh) [
      | returns d ↦ returns d
      | throws ↦ set_exception fresh
      | faults ↦ faults
    ]
        >>= λ result. returns (get result))
      ≡ returns (stopped o)
unfolding from_code set_value set_exception set_expected get notify can_pass
filled (returns v) h = refl
filled throws h = refl
filled faults h = absurd (h refl)

module _ {R S : Type 0} where
  -- When the first function runs after `next`, the future of `next` gives what the two functions give
  -- in a row if the second one's task is accepted, and throws if it is refused. When it has run before,
  -- and returned, a refused task makes `next` itself throw.
  pub complete-get :
      (o : Outcome R) (v : R) (func : R → Outcome S)
      → o ≢ faults
      → ((v : R) → func v ≢ faults)
      → ((complete true func o fresh >>= λ d. returns (get d)) ≡ returns (stopped (o >>= func)))
        × ((complete false func o fresh >>= λ d. returns (get d)) ≡ returns (stopped throws))
        × ((from_code (returns v) fresh >>= next >>= λ d. run_calls false func d.calls fresh)
            ≡ throws)
  unfolding complete continue_with run_calls continuation set_exception set_expected
  complete-get (returns w) v func h k = (
    filled (func w) (k w),
    unfold get notify can_pass in refl,
    unfold from_code set_value next pass_next notify in refl,
  )
  complete-get throws v func h k =
      unfold get notify can_pass from_code set_value next pass_next in (refl, refl, refl)
  complete-get faults v func h k = absurd (h refl)
