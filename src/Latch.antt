-- ===== src/Latch.antt =====
-- include/daw/fs/impl/daw_latch.h: the counting semaphore `fixed_cnt_sem` and the shared handle
-- `shared_cnt_sem`. The atomic counter is a number, each call of a member one atomic step; a failed
-- `assert` is a fault. The counter is an `int`, whose overflow is not modelled.
pub mod Counting
pub mod Shared
pub mod Waiting
use function_stream.Base.{
  ℕ, ◌+◌, ◌-◌, Bool, ltb, leb, ◌==◌, if◌then◌else◌, Outcome, returns, faults,
}

pub record FixedCntSem : Type 0 where
  pub value : ℕ

abbrev pub fixed_cnt_sem : ℕ → FixedCntSem
fixed_cnt_sem count = record { value = count }

-- `assert( m_value > 0 ); --m_value;`
unfoldable pub decrement : FixedCntSem → Outcome FixedCntSem
decrement s = if ltb 0 s.value then returns (record { value = s.value - 1 }) else faults

unfoldable pub add_notifier : FixedCntSem → FixedCntSem
add_notifier s = record { value = s.value + 1 }

unfoldable pub reset : FixedCntSem → ℕ → FixedCntSem
reset s count = record { value = count }

-- The wake-up of the waiters changes no state.
unfoldable pub notify : FixedCntSem → Outcome FixedCntSem
unfolding decrement
notify s = decrement s

-- The predicate on which `wait` returns.
unfoldable pub can_pass : FixedCntSem → Bool
can_pass s = leb s.value 0

unfoldable pub try_wait : FixedCntSem → Bool
try_wait s = s.value == 0
