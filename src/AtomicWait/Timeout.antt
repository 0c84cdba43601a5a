-- ===== src/AtomicWait/Timeout.antt =====
-- include/daw/fs/impl/daw_atomic_wait.h: how long `atomic_wait_for` waits.
use function_stream.Base.{
  ℕ, zero, suc, ◌+◌, ◌-◌, ◌≤◌, ◌<◌, ◌≡◌, refl, inl, inr, Bool, true, false, some, if◌then◌else◌,
  arith, Bool-cases, ltb,
}
use function_stream.AtomicWait.{
  Pause, timed_backoff_policy, poll_loop, poll_with_backoff, found, timeout, tries_loop, polls,
  atomic_wait_for, atomic_wait_until,
}

-- With no time to spend, the polls end by the time that the counter is spent.
poll_loop-ends :
    (policy : ℕ → Pause × Bool) (func : ℕ → Bool) (elapsed : ℕ → ℕ) (fuel count j : ℕ)
    → count ≤ 64
    → 64 - count < fuel
    → (b : Bool) × (i : ℕ) × (i ≤ j + (64 - count))
      × (poll_loop policy func 0 elapsed fuel count j ≡ some (b, i))
unfolding poll_loop
poll_loop-ends policy func elapsed zero count j h m = absurd (omega arith)
poll_loop-ends policy func elapsed (suc fuel) count j h m = elim (Bool-cases (func j)) [
  | inl hit ↦ (true, j, omega arith, ground arith)
  | inr miss ↦ elim (Bool-cases (ltb count 64)) [
    | inl more ↦
        let (b, i, k, e) =
          poll_loop-ends policy func elapsed fuel (count + 1) (j + 1) (ground arith)
            (ground arith) in
        (b, i, ground (arith, k), ground (arith, e))
    | inr last ↦ (false, j, omega arith, ground arith)
  ]
]

tries_loop-le :
    {A : Type 0} (same : A → A → Bool) (old : A) (load : ℕ → A) (tries k : ℕ)
    → tries_loop same old load tries k ≤ tries + k
unfolding tries_loop
tries_loop-le same old load zero k = omega arith
tries_loop-le same old load (suc tries) k =
    ground (arith, tries_loop-le same old load tries (k + 1))

-- However long the time that it is given, and whatever the clock and the other threads do,
-- `atomic_wait_for` returns after at most 82 loads: it answers `found` exactly if the last of them
-- differs from the old value.
pub atomic_wait_for-returns :
    {A : Type 0} (same : A → A → Bool) (old : A) (load : ℕ → A) (start rel_time : ℕ)
    (now elapsed : ℕ → ℕ)
    → (k : ℕ) × (k ≤ 81)
      × (atomic_wait_for same old load 65 start rel_time now elapsed
          ≡ some ((if same (load k) old then timeout else found), k))
unfolding atomic_wait_for poll_with_backoff
atomic_wait_for-returns same old load start rel_time now elapsed =
    let k : ℕ = tries_loop same old load 16 0 in
    let (b, j, h, e) =
      poll_loop-ends timed_backoff_policy (polls same old load (start + rel_time) now k) elapsed 65
        0 0 (omega arith) (omega arith) in
    (k + 1 + j, omega (arith, h, tries_loop-le same old load 16 0), rw e refl)

tries_loop-all :
    {A : Type 0} (same : A → A → Bool) (old : A) (load : ℕ → A) (tries k : ℕ)
    → ((i : ℕ) → i < tries + k → same (load i) old ≡ true)
    → tries_loop same old load tries k ≡ tries + k
unfolding tries_loop
tries_loop-all same old load zero k h = omega arith
tries_loop-all same old load (suc tries) k h = ground (
  arith,
  h k (omega arith),
  tries_loop-all same old load tries (k + 1) (λ i m. h i (omega arith)),
)

-- While the object holds the old value for the first 18 loads, and the deadline is not reached at the
-- first poll, `atomic_wait_for` gives up after these loads: what the object holds later is not looked
-- at, however much of the time is left.
pub atomic_wait_for-early :
    {A : Type 0} (same : A → A → Bool) (old : A) (load : ℕ → A) (start rel_time : ℕ)
    (now elapsed : ℕ → ℕ)
    → ((i : ℕ) → i ≤ 17 → same (load i) old ≡ true)
    → now 0 ≤ start + rel_time
    → atomic_wait_for same old load 65 start rel_time now elapsed ≡ some (timeout, 17)
unfolding atomic_wait_for poll_with_backoff poll_loop
atomic_wait_for-early same old load start rel_time now elapsed h m =
    rw (tries_loop-all same old load 16 0 (λ i p. h i (omega arith)))
      (ground (arith, h 17 (omega arith)))

-- A deadline does not change this: `atomic_wait_until` returns after at most 82 loads, whether the
-- deadline is over or not, and after exactly 18 if it is not over at the first poll and they all show
-- the old value.
atomic_wait_until-returns :
    {A : Type 0} (same : A → A → Bool) (old : A) (load : ℕ → A) (timeout_time clock_now start : ℕ)
    (now elapsed : ℕ → ℕ)
    → ((k : ℕ) × (k ≤ 81)
        × (atomic_wait_until same old load 65 timeout_time clock_now start now elapsed
            ≡ some ((if same (load k) old then timeout else found), k)))
      × (((i : ℕ) → i ≤ 17 → same (load i) old ≡ true)
          → now 0 + clock_now ≤ start + timeout_time
          → atomic_wait_until same old load 65 timeout_time clock_now start now elapsed
            ≡ some (timeout, 17))
unfolding atomic_wait_until
atomic_wait_until-returns same old load timeout_time clock_now start now elapsed =
    let later : ℕ → ℕ = λ j. now j + clock_now in
    (
      atomic_wait_for-returns same old load start timeout_time later elapsed,
      atomic_wait_for-early same old load start timeout_time later elapsed,
    )
