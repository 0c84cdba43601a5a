-- ===== src/Latch/Counting.antt =====
-- How many notifications open a semaphore.
use function_stream.Base.{
  ℕ, zero, suc, ◌-◌, ◌≤◌, ◌<◌, ◌≡◌, refl, ◌↔◌, true, arith, Outcome, returns, faults, ◌>>=◌,
}
use function_stream.Latch.{FixedCntSem, fixed_cnt_sem, notify, add_notifier, can_pass, try_wait}

pub notify_pos : (s : FixedCntSem) → 0 < s.value → notify s ≡ returns (fixed_cnt_sem (s.value - 1))
unfolding notify
notify_pos s h = ground arith

-- `k` notifications in a row.
unfoldable pub notify_times : ℕ → FixedCntSem → Outcome FixedCntSem
notify_times zero s = returns s
notify_times (suc k) s = do s' ← notify s; notify_times k s'

-- A semaphore takes as many notifications as it counts, and then counts what is left.
pub notify_times-le :
    (k n : ℕ) → k ≤ n → notify_times k (fixed_cnt_sem n) ≡ returns (fixed_cnt_sem (n - k))
unfolding notify_times
notify_times-le zero n h = ground arith
notify_times-le (suc k) n h =
    ground (arith, notify_pos (fixed_cnt_sem n), notify_times-le k (n - 1))

-- More notifications than a semaphore counts fail its assertion, whatever the count.
pub notify_times-faults : (k n : ℕ) → n < k → notify_times k (fixed_cnt_sem n) ≡ faults
unfolding notify_times notify
notify_times-faults zero n h = absurd (omega arith)
notify_times-faults (suc k) zero h = refl
notify_times-faults (suc k) (suc n) h = ground (arith, notify_times-faults k n)

-- A registered notifier takes exactly one notification, after which the semaphore is as before.
pub notify-add_notifier : (s : FixedCntSem) → notify (add_notifier s) ≡ returns s
unfolding notify add_notifier
notify-add_notifier s = ground arith

-- After `k` of at most `n` notifications a waiter passes exactly when `k` is `n`, and `try_wait`
-- answers the same.
pub opens_exactly :
    (k n : ℕ) {s : FixedCntSem}
    → k ≤ n
    → notify_times k (fixed_cnt_sem n) ≡ returns s
    → ((can_pass s ≡ true) ↔ (k ≡ n)) × (try_wait s ≡ can_pass s)
unfolding can_pass try_wait
opens_exactly k n {s} h e = ground (arith, notify_times-le k n)
