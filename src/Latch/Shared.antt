-- ===== src/Latch/Shared.antt =====
-- include/daw/fs/impl/daw_latch.h: `shared_cnt_sem`, a counted pointer to a `fixed_cnt_sem`, and
-- `unique_cnt_sem`, which owns one.
use function_stream.Base.{ℕ, Bool, Option, none, some, Outcome, returns, faults, ◌>>=◌}
use function_stream.Latch
use function_stream.Latch.{FixedCntSem, fixed_cnt_sem}

-- none is a handle that was moved from, on which every call fails its assertion.
abbrev pub SharedCntSem : Type 0
SharedCntSem = Option FixedCntSem

unfoldable pub shared_cnt_sem : ℕ → SharedCntSem
shared_cnt_sem count = some (fixed_cnt_sem count)

abbrev pub pointee : SharedCntSem → Outcome FixedCntSem
pointee none = faults
pointee (some s) = returns s

unfoldable pub add_notifier : SharedCntSem → Outcome SharedCntSem
add_notifier h = do s ← pointee h; returns (some (Latch.add_notifier s))

unfoldable pub notify : SharedCntSem → Outcome SharedCntSem
notify h = do s ← pointee h; s' ← Latch.notify s; returns (some s')

unfoldable pub try_wait : SharedCntSem → Outcome Bool
try_wait h = do s ← pointee h; returns (Latch.try_wait s)

-- none is a handle that was released or moved from.
abbrev pub UniqueCntSem : Type 0
UniqueCntSem = Option FixedCntSem

unfoldable pub unique_cnt_sem : ℕ → UniqueCntSem
unique_cnt_sem count = some (fixed_cnt_sem count)

-- What `release` returns, and the handle that it leaves.
unfoldable pub release : UniqueCntSem → Option FixedCntSem × UniqueCntSem
release h = (h, none)

-- `shared_cnt_sem( unique_cnt_sem && )`, with the handle that it leaves.
unfoldable pub share : UniqueCntSem → SharedCntSem × UniqueCntSem
unfolding release
share h = release h
