-- ===== src/Latch/Waiting.antt =====
-- include/daw/fs/impl/daw_latch.h: `fixed_cnt_sem::wait` over `atomic_wait_if`, `wait_all`, and the
-- members of `unique_cnt_sem`.
use function_stream.Base.{
  ℕ, ◌≡◌, refl, Bool, true, false, none, ◌&&◌, List, [], ◌∷◌, some, leb, ◌==◌, if◌then◌else◌,
  Outcome, returns, faults, ◌>>=◌, inl, inr, arith, Bool-cases, All,
}
use function_stream.Latch
use function_stream.Latch.{FixedCntSem, fixed_cnt_sem, can_pass}
use function_stream.Latch.Shared
use function_stream.Latch.Shared.{UniqueCntSem, SharedCntSem, pointee}
use function_stream.AtomicWait.{atomic_wait_if}
use function_stream.Queue.{Spin, stopped, spinning}

-- `wait`: `counts` is what `m_value` holds at the loads of the wait, and `count` what it holds
-- afterwards, which is asserted to be zero.
unfoldable pub wait : List ℕ → ℕ → Spin (Outcome ℕ)
unfolding atomic_wait_if
wait counts count = elim (atomic_wait_if (λ current_value. leb current_value 0) counts) [
  | spinning ↦ spinning
  | stopped v ↦ stopped (if count == 0 then returns v else faults)
]

-- `wait_all` waits for one semaphore after the other.
unfoldable pub wait_all : List FixedCntSem → Bool
wait_all [] = true
wait_all (sem ∷ semaphores) = can_pass sem && wait_all semaphores

unfoldable pub add_notifier : UniqueCntSem → Outcome UniqueCntSem
add_notifier h = do s ← pointee h; returns (some (Latch.add_notifier s))

unfoldable pub notify : UniqueCntSem → Outcome UniqueCntSem
notify h = do s ← pointee h; s' ← Latch.notify s; returns (some s')

unfoldable pub try_wait : UniqueCntSem → Outcome Bool
try_wait h = do s ← pointee h; returns (Latch.try_wait s)

-- Whether `wait` of a handle returns, and `operator bool`, of either kind.
unfoldable pub wait_unique : UniqueCntSem → Outcome Bool
wait_unique h = do s ← pointee h; returns (can_pass s)

unfoldable pub has_unique : UniqueCntSem → Bool
has_unique none = false
has_unique (some s) = true

unfoldable pub wait_shared : SharedCntSem → Outcome Bool
wait_shared h = do s ← pointee h; returns (can_pass s)

unfoldable pub has_shared : SharedCntSem → Bool
has_shared none = false
has_shared (some s) = true

-- A handle fails the assertion of `wait` exactly if `operator bool` says that it has no semaphore, and
-- otherwise waits exactly while `try_wait` says so.
pub wait_shared-try_wait :
    (h : SharedCntSem) → wait_shared h ≡ (if has_shared h then Shared.try_wait h else faults)
unfolding wait_shared has_shared Shared.try_wait Latch.try_wait can_pass
wait_shared-try_wait none = refl
wait_shared-try_wait (some s) = ground arith

-- A wait that has returned has loaded a zero, which was one of the counts.
pub wait-zero :
    (counts : List ℕ) (count : ℕ) {v : ℕ}
    → wait counts count ≡ stopped (returns v)
    → (v ≡ 0) × (count ≡ 0)
unfolding wait atomic_wait_if
wait-zero [] count e = absurd (ground arith)
wait-zero (c ∷ counts) count e = elim (Bool-cases (leb c 0)) [
  | inl z ↦ ground arith
  | inr p ↦ wait-zero counts count (ground arith)
]

-- `wait_all` passes only if every semaphore is open.
pub wait_all-All :
    (semaphores : List FixedCntSem) → wait_all semaphores ≡ true → All (λ s. s.value ≡ 0) semaphores
unfolding wait_all can_pass
wait_all-All [] e = tt
wait_all-All (s ∷ semaphores) e = (ground arith, wait_all-All semaphores (ground arith))
