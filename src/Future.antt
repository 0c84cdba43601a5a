-- ===== src/Future.antt =====
-- include/daw/fs/impl/future_result_impl.h and src/future_result.cpp: the shared state of a future,
-- and the calls that change it. Each call holds the lock of `m_next`, so it is one step. `calls` logs
-- what the continuation was called with.
pub mod Delivery
pub mod Reduction
pub mod Rounds
pub mod Async
pub mod Refused
pub mod Join
pub mod Void
pub mod Callables
pub mod Forks
pub mod Chain
pub mod Forking
pub mod Handles
pub mod Interface
use function_stream.Base.{
  ℕ, Bool, true, false, not, List, [], ◌∷◌, ◌++◌, if◌then◌else◌, Outcome, returns, throws, faults,
  ◌>>=◌,
}
use function_stream.Latch.{FixedCntSem, fixed_cnt_sem, notify, can_pass, try_wait}
use function_stream.Queue.{Spin, stopped, spinning}

pub data FutureStatus : Type 0 where
  ready timeout deferred continued : FutureStatus

-- What `daw::expected_t` can hold.
pub data Expected (R : Type 0) : Type 0 where
  empty exception : Expected R
  value : R → Expected R

-- `member_data_members`.
pub record MemberData (R : Type 0) : Type 0 where
  pub has_next : Bool
  pub sem : FixedCntSem
  pub status : FutureStatus
  pub result : Expected R
  pub calls : List (Expected R)

abbrev pub is_ready : FutureStatus → Bool
is_ready ready = true
is_ready _ = false

abbrev pub is_continued : FutureStatus → Bool
is_continued continued = true
is_continued _ = false

abbrev pub has_exception : {R : Type 0} → Expected R → Bool
has_exception exception = true
has_exception _ = false

module _ {R : Type 0} where
  abbrev pub fresh : MemberData R
  fresh = record {
    has_next = false;
    sem = fixed_cnt_sem 1;
    status = deferred;
    result = empty;
    calls = [];
  }

  -- `pass_next`: a call of the continuation.
  unfoldable pub pass_next : Expected R → MemberData R → Outcome (MemberData R)
  pass_next v d = if d.has_next then returns (record d { calls = d.calls ++ v ∷ [] }) else throws

  -- `set_value` and `set_exception`, of any kind of argument.
  unfoldable pub set_expected : Expected R → MemberData R → Outcome (MemberData R)
  unfolding pass_next
  set_expected v d =
      if d.has_next
      then pass_next v d
      else notify d.sem >>= λ s. returns (record d { result = v; status = ready; sem = s })

  unfoldable pub set_value : R → MemberData R → Outcome (MemberData R)
  unfolding set_expected
  set_value v = set_expected (value v)

  unfoldable pub set_exception : MemberData R → Outcome (MemberData R)
  unfolding set_expected
  set_exception = set_expected exception

  -- `from_code`: what the function returned or threw.
  unfoldable pub from_code : Outcome R → MemberData R → Outcome (MemberData R)
  unfolding set_value set_exception
  from_code (returns v) d = set_value v d
  from_code throws d = set_exception d
  from_code faults d = faults

  -- `next`: installs the continuation, once.
  unfoldable pub next : MemberData R → Outcome (MemberData R)
  unfolding pass_next
  next d =
      if d.has_next
      then faults
      else if is_ready d.status
      then (pass_next d.result (record d { has_next = true }) >>= λ d'.
          returns (record d' { status = continued }))
      else notify d.sem >>= λ s. returns (record d { has_next = true; status = continued; sem = s })

  -- `fork`: the same, but `status( future_status::continued )` stands before the test of the status.
  unfoldable pub fork : MemberData R → Outcome (MemberData R)
  unfolding pass_next
  fork d =
      let d' = record d { has_next = true; status = continued } in
      if d.has_next
      then faults
      else if is_ready d'.status
      then pass_next d'.result d'
      else notify d'.sem >>= λ s. returns (record d' { sem = s })

  -- Whether `wait` returns.
  unfoldable pub wait_passes : MemberData R → Bool
  wait_passes d = if is_ready d.status then true else can_pass d.sem

  -- `expected_t::get`.
  abbrev pub get_expected : Expected R → Outcome R
  get_expected empty = faults
  get_expected exception = throws
  get_expected (value v) = returns v

  -- `get`: it waits, and throws on a future that was continued.
  unfoldable pub get : MemberData R → Spin (Outcome R)
  unfolding wait_passes
  get d =
      if wait_passes d
      then stopped (if is_continued d.status then throws else get_expected d.result)
      else spinning

  unfoldable pub is_exception : MemberData R → Spin (Outcome Bool)
  unfolding wait_passes
  is_exception d =
      if wait_passes d
      then stopped (if is_continued d.status then throws else returns (has_exception d.result))
      else spinning

-- `member_data_t<void>`: the result is stored first, and `pass_next` refuses an exception.
module _ {R : Type 0} where
  unfoldable pub pass_next_void : Expected R → MemberData R → Outcome (MemberData R)
  pass_next_void v d =
      if not d.has_next
      then throws
      else if has_exception v
      then throws
      else returns (record d { calls = d.calls ++ v ∷ [] })

  unfoldable pub set_expected_void : Expected R → MemberData R → Outcome (MemberData R)
  unfolding pass_next_void
  set_expected_void v d =
      if d.has_next
      then pass_next_void v (record d { result = v })
      else notify d.sem >>= λ s. returns (record d { result = v; status = ready; sem = s })

-- The continuation that `next` installs: what it does with its argument, `added` being whether
-- `add_task` took the task that will run the function.
pub data Continues (R : Type 0) : Type 0 where
  scheduled : R → Continues R
  passes_exception : Continues R

module _ {R : Type 0} where
  unfoldable pub continuation : Bool → Expected R → Outcome (Continues R)
  continuation added (value v) = if not added then throws else returns (scheduled v)
  continuation added _ = returns passes_exception

  -- That of `member_data_t<void>` tests the other way round.
  unfoldable pub continuation_void : Bool → Expected R → Outcome (Continues R)
  continuation_void added (value v) = if added then throws else returns (scheduled v)
  continuation_void added _ = returns passes_exception
