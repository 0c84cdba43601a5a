-- ===== src/Future/Interface/States.antt =====
-- The states of a future that is not one of `void` and has a semaphore of its own.
use function_stream.Base.{ℕ, zero, suc, ◌≡◌, refl, true, false, none, Outcome, returns}
use function_stream.Latch
use function_stream.Future
use function_stream.Future.{
  MemberData, value, fresh, FutureStatus, ready, continued, deferred, is_continued, is_ready,
}
use function_stream.Future.Interface.{
  future_result, set_value, set_exception, from_code, next, fork, wait_for_void,
}

-- A call that changes such a future, by its owner or by a task.
pub data Call (R : Type 0) : Type 0 where
  sets_value : R → Call R
  sets_exception continues forks : Call R
  runs : Outcome R → Call R

module _ {R : Type 0} where
  unfoldable pub perform : Call R → MemberData R → Outcome (MemberData R)
  unfolding set_value set_exception from_code next fork
  perform (sets_value v) d = set_value v d
  perform sets_exception d = set_exception d
  perform (runs func) d = from_code func d
  perform continues d = next d
  perform forks d = fork d

  -- What calls that returned lead to.
  pub data Reach : MemberData R → Type 0 where
    here : Reach future_result
    next_call : {d e : MemberData R} (c : Call R) → Reach d → perform c d ≡ returns e → Reach e

  -- The three states: no result yet, a result, and continued.
  data State (d : MemberData R) : Type 0 where
    awaits : d.has_next ≡ false → d.sem.value ≡ 1 → d.status ≡ deferred → State d
    has_value : d.has_next ≡ false → d.sem.value ≡ 0 → d.status ≡ ready → State d
    passed_on : d.has_next ≡ true → d.sem.value ≡ 0 → d.status ≡ continued → State d

-- A timed wait on a `void` future never returns.
pub wait_for_void-none : (fuel : ℕ) → wait_for_void fuel ≡ none
unfolding wait_for_void
wait_for_void-none zero = refl
wait_for_void-none (suc fuel) = wait_for_void-none fuel
