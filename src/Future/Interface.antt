-- ===== src/Future/Interface.antt =====
-- `future_result_t` of include/daw/fs/future_result.h and src/future_result.cpp, over the shared state
-- that its `m_data` points to, and the states that its calls lead to.
pub mod States
use function_stream.Base.{
  ℕ, zero, suc, Bool, true, Option, none, if◌then◌else◌, Outcome, returns, throws, faults,
}
use function_stream.Latch
use function_stream.Latch.{FixedCntSem}
use function_stream.Queue.{Spin, spinning}
use function_stream.Future
use function_stream.Future.{
  MemberData, Expected, value, exception, fresh, wait_passes, FutureStatus, set_expected_void,
}
use function_stream.Future.Void.{from_code_void, next_void}

module _ {R : Type 0} where
  -- `future_result_t( )`, and with a scheduler.
  unfoldable pub future_result : MemberData R
  future_result = fresh

  -- With a semaphore.
  unfoldable pub future_result_on : FixedCntSem → MemberData R
  future_result_on sem = record fresh { sem = sem }

  -- Whether `wait( )` returns.
  unfoldable pub wait : MemberData R → Bool
  unfolding wait_passes
  wait d = wait_passes d

  unfoldable pub try_wait : MemberData R → Bool
  try_wait d = Latch.try_wait d.sem

  -- `operator bool`.
  unfoldable pub has_result : MemberData R → Bool
  unfolding try_wait
  has_result d = try_wait d

  unfoldable pub set_value : R → MemberData R → Outcome (MemberData R)
  unfolding Future.set_value
  set_value v d = Future.set_value v d

  -- Of an exception, or of the current one.
  unfoldable pub set_exception : MemberData R → Outcome (MemberData R)
  unfolding Future.set_exception
  set_exception d = Future.set_exception d

  unfoldable pub from_code : Outcome R → MemberData R → Outcome (MemberData R)
  unfolding Future.from_code
  from_code func d = Future.from_code func d

  unfoldable pub is_exception : MemberData R → Spin (Outcome Bool)
  unfolding Future.is_exception
  is_exception d = Future.is_exception d

  unfoldable pub get : MemberData R → Spin (Outcome R)
  unfolding Future.get
  get d = Future.get d

  unfoldable pub next : MemberData R → Outcome (MemberData R)
  unfolding Future.next
  next d = Future.next d

  unfoldable pub fork : MemberData R → Outcome (MemberData R)
  unfolding Future.fork
  fork d = Future.fork d

  -- `member_data_t::fork_join`: an assertion, and `std::abort( )`.
  unfoldable pub fork_join : MemberData R → Outcome (MemberData R)
  fork_join d = faults

-- `future_result_t<void>`, `R` being the type of the value that an `expected_t<void>` holds, and `done`
-- that value.
module _ {R : Type 0} (done : R) where
  unfoldable pub set_value_void : MemberData R → Outcome (MemberData R)
  unfolding set_expected_void
  set_value_void d = set_expected_void (value done) d

module _ {R : Type 0} where
  unfoldable pub set_exception_void : MemberData R → Outcome (MemberData R)
  unfolding set_expected_void
  set_exception_void d = set_expected_void exception d

  -- It waits, and then `m_data.get( )` waits again.
  unfoldable pub get_void : MemberData R → Spin (Outcome R)
  unfolding wait Future.get
  get_void d = if wait d then Future.get d else spinning

  unfoldable pub run_void : Outcome R → MemberData R → Outcome (MemberData R)
  unfolding from_code_void
  run_void func d = from_code_void func d

  unfoldable pub continue_void : MemberData R → Outcome (MemberData R)
  unfolding next_void
  continue_void d = next_void d

-- `wait_for` and `wait_until` of a `void` future call themselves. none says that the fuel ran out.
unfoldable pub wait_for_void : ℕ → Option FutureStatus
wait_for_void zero = none
wait_for_void (suc fuel) = wait_for_void fuel
