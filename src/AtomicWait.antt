-- ===== src/AtomicWait.antt =====
-- include/daw/fs/impl/daw_atomic_wait.h: waiting for an atomic object to change, by polling it and
-- with a timeout, or by `std::atomic_wait`. Times are in nanoseconds. What the loads see and what the
-- clock shows are functions of the number of the load or poll.
pub mod Timeout
use function_stream.Base.{
  ℕ, zero, suc, ◌+◌, ◌/◌, Bool, true, false, not, ◌||◌, ltb, leb, List, [], ◌∷◌, Option, none, some,
  if◌then◌else◌,
}
use function_stream.Queue.{Spin, stopped, spinning}

-- What a thread does before it polls again.
pub data Pause : Type 0 where
  sleep_for : ℕ → Pause
  yield poll : Pause

-- `timed_backoff_policy`: the pause, and whether to give up.
unfoldable pub timed_backoff_policy : ℕ → Pause × Bool
timed_backoff_policy elapsed = (
  (if ltb 128000000 elapsed
      then sleep_for 8000000
      else if ltb 64000 elapsed
      then sleep_for (elapsed / 2)
      else if ltb 4000 elapsed
      then yield
      else poll),
  false,
)

-- `poll_with_backoff`: what it returns, and the number of its last poll. `func j` is what the function
-- returns at poll `j`, and `elapsed j` the time since the start after that. none says that the fuel
-- ran out.
module _ (policy : ℕ → Pause × Bool) (func : ℕ → Bool) (max_elapsed : ℕ) (elapsed : ℕ → ℕ) where
  unfoldable pub poll_loop : ℕ → ℕ → ℕ → Option (Bool × ℕ)
  poll_loop zero count j = none
  poll_loop (suc fuel) count j =
      let counted = poll_loop fuel (count + 1) (j + 1) in
      let again = poll_loop fuel count (j + 1) in
      if func j
      then some (true, j)
      else if ltb count 64
      then counted
      else if leb max_elapsed (elapsed j)
      then some (false, j)
      else if (policy (elapsed j)).1
      then some (false, j)
      else again

  unfoldable pub poll_with_backoff : ℕ → Option (Bool × ℕ)
  unfolding poll_loop
  poll_with_backoff fuel = poll_loop fuel 0 0

pub data WaitStatus : Type 0 where
  found timeout : WaitStatus

module _ {A : Type 0} (same : A → A → Bool) (old : A) (load : ℕ → A) where
  -- `for( tries = 0; current == old and tries < 16; ++tries )`: the number of its last load, `k` being
  -- that of the last one before it.
  unfoldable pub tries_loop : ℕ → ℕ → ℕ
  tries_loop zero k = k
  tries_loop (suc tries) k =
      let more = tries_loop tries (k + 1) in if same (load k) old then more else k

  -- What `atomic_wait_for` polls, `k` being the number of the last load before, `now j` the clock.
  abbrev pub polls : ℕ → (ℕ → ℕ) → ℕ → ℕ → Bool
  polls final_time now k j = not (same (load (k + 1 + j)) old) || leb (now j) final_time

  -- After the polls. The number is that of the last load.
  abbrev pub wait_result : ℕ → Option (Bool × ℕ) → Option (WaitStatus × ℕ)
  wait_result k none = none
  wait_result k (some (b, j)) =
      some ((if same (load (k + 1 + j)) old then timeout else found), k + 1 + j)

  -- `atomic_wait_for( object, old, rel_time )`, called at `start`: its answer, and the number of its
  -- last load. The call of `poll_with_backoff` leaves `max_elapsed` at zero.
  unfoldable pub atomic_wait_for : ℕ → ℕ → ℕ → (ℕ → ℕ) → (ℕ → ℕ) → Option (WaitStatus × ℕ)
  atomic_wait_for fuel start rel_time now elapsed =
      let k = tries_loop 16 0 in
      wait_result k
        (poll_with_backoff timed_backoff_policy (polls (start + rel_time) now k) 0 elapsed fuel)

  -- `atomic_wait_until( object, old, timeout_time )`: the clock shows `clock_now` when the relative time
  -- is taken, which is negative if the deadline is over. What is compared is thus the clock with
  -- `start + (timeout_time - clock_now)`, with `clock_now` added to both sides.
  unfoldable pub atomic_wait_until : ℕ → ℕ → ℕ → ℕ → (ℕ → ℕ) → (ℕ → ℕ) → Option (WaitStatus × ℕ)
  unfolding atomic_wait_for
  atomic_wait_until fuel timeout_time clock_now start now elapsed =
      atomic_wait_for fuel start timeout_time (λ j. now j + clock_now) elapsed

-- `atomic_wait_if`: the value that it last loaded, `loads` being what the object holds at its loads. It
-- spins, or sleeps in `std::atomic_wait`, while the predicate does not hold.
unfoldable pub atomic_wait_if : {A : Type 0} → (A → Bool) → List A → Spin A
atomic_wait_if predicate [] = spinning
atomic_wait_if predicate (current ∷ loads) =
    let again = atomic_wait_if predicate loads in
    if predicate current then stopped current else again

unfoldable pub atomic_wait_value : {A : Type 0} → (A → A → Bool) → A → List A → Spin A
unfolding atomic_wait_if
atomic_wait_value same value loads = atomic_wait_if (λ current. same current value) loads
