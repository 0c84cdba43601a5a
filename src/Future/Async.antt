-- ===== src/Future/Async.antt =====
-- `make_future_result`, `async` and `future_task_t` of include/daw/fs/future_result.h, and the tasks
-- that the continuation of `next` adds: what their futures give.
use function_stream.Base.{
  ◌≡◌, ◌≢◌, refl, Bool, true, false, not, List, [], ◌∷◌, Option, none, some, if◌then◌else◌, Outcome,
  returns, throws, faults, ◌>>=◌,
}
use function_stream.Latch.{FixedCntSem, notify, can_pass}
use function_stream.Queue.{Spin, stopped, spinning}
use function_stream.Future.{
  MemberData, Expected, fresh, set_expected, set_value, set_exception, from_code, pass_next, next,
  get, scheduled, passes_exception, continuation,
}

-- A future with the task that will fill it, until that has run. The function is seen by what it does
-- when it is called with the arguments.
pub record Asynchronous (R : Type 0) : Type 0 where
  pub task : Option (Outcome R)
  pub future : MemberData R

module _ {R : Type 0} where
  -- `make_future_result( ts, func, args )`.
  unfoldable pub make_future_result : Bool → Outcome R → Outcome (Asynchronous R)
  make_future_result added func =
      if not added then throws else returns (record { task = some func; future = fresh })

  -- `async`, and `make_future_result` without a scheduler, which forward to it.
  unfoldable pub async : Bool → Outcome R → Outcome (Asynchronous R)
  unfolding make_future_result
  async added func = make_future_result added func

  -- `future_task_t::operator( )`. An exception of `set_value` is caught too.
  unfoldable pub future_task : Outcome R → MemberData R → Outcome (MemberData R)
  unfolding set_value set_exception
  future_task (returns v) d = elim (set_value v d) [
    | returns d' ↦ returns d'
    | throws ↦ set_exception d
    | faults ↦ faults
  ]
  future_task throws d = set_exception d
  future_task faults d = faults

  -- `make_future_result( ts, sem, func, args )`, which does not look at what `add_task` returns.
  unfoldable pub make_future_result_with : FixedCntSem → Bool → Outcome R → Asynchronous R
  make_future_result_with sem added func = record {
    task = if added then some func else none;
    future = record fresh { sem = sem };
  }

  -- A worker runs the task, which fills the future.
  unfoldable pub run_async :
      (Outcome R → MemberData R → Outcome (MemberData R))
      → Asynchronous R
      → Outcome (Asynchronous R)
  run_async body a = elim a.task [
    | none ↦ returns a
    | some o ↦ (body o a.future >>= λ d. returns (record { task = none; future = d }))
  ]

  -- What `get` does on the future of an asynchronous call.
  abbrev pub get_async : Asynchronous R → Spin (Outcome R)
  get_async a = get a.future

  -- A future of `make_future_result` or of `async` waits until its task has run, and then gives what
  -- the function returned, or throws if it threw; a refused task throws at once.
  pub make_future_result-get :
      (o : Outcome R)
      → o ≢ faults
      → (make_future_result false o ≡ throws)
        × ((make_future_result true o >>= λ a. returns (get_async a)) ≡ returns spinning)
        × ((make_future_result true o >>= run_async from_code >>= λ a. returns (get_async a))
            ≡ returns (stopped o))
        × ((make_future_result true o >>= run_async future_task >>= λ a. returns (get_async a))
            ≡ returns (stopped o))
  unfolding make_future_result run_async from_code future_task set_value set_exception set_expected
      get
  make_future_result-get (returns v) h = unfold notify can_pass in (refl, refl, refl, refl)
  make_future_result-get throws h = unfold notify can_pass in (refl, refl, refl, refl)
  make_future_result-get faults h = absurd (h refl)

module _ {R S : Type 0} (added : Bool) (func : R → Outcome S) where
  -- One call of the continuation, with the task that it adds, which fills the future of `next`.
  unfoldable pub continue_with : Expected R → MemberData S → Outcome (MemberData S)
  unfolding continuation from_code set_exception
  continue_with v result = continuation added v >>= λ c. elim c [
    | scheduled r ↦ from_code (func r) result
    | passes_exception ↦ set_exception result
  ]

  -- The calls that a future has logged.
  unfoldable pub run_calls : List (Expected R) → MemberData S → Outcome (MemberData S)
  unfolding continue_with
  run_calls [] result = returns result
  run_calls (v ∷ calls) result = continue_with v result >>= run_calls calls

module _ {R S : Type 0} where
  -- What a client that called `next` on a future gets from the future that this returned.
  abbrev pub get_next : (R → Outcome S) → MemberData R → Outcome (Spin (Outcome S))
  get_next func d = run_calls true func d.calls fresh >>= λ result. returns (get result)

  -- What is left when the task of `next` runs.
  filled-get :
      (func : R → Outcome S) (o : Outcome S)
      → o ≢ faults
      → (from_code o fresh >>= run_calls true func [] >>= λ result. returns (get result))
        ≡ returns (stopped o)
  unfolding from_code set_value set_exception set_expected get run_calls
  filled-get func (returns v) h = unfold notify can_pass in refl
  filled-get func throws h = unfold notify can_pass in refl
  filled-get func faults h = absurd (h refl)

  -- Futures compose as functions do: whether `next` is called before or after the first function has
  -- run, its future gives what the two functions give in a row, an exception of the first included.
  pub next-get :
      (o : Outcome R) (func : R → Outcome S)
      → o ≢ faults
      → ((v : R) → func v ≢ faults)
      → ((from_code o fresh >>= next >>= get_next func) ≡ returns (stopped (o >>= func)))
        × ((next fresh >>= from_code o >>= get_next func) ≡ returns (stopped (o >>= func)))
  unfolding next from_code set_value set_exception set_expected pass_next run_calls continue_with
      continuation
  next-get (returns v) func h k =
      unfold notify can_pass in (filled-get func (func v) (k v), filled-get func (func v) (k v))
  next-get throws func h k = unfold notify can_pass get in (refl, refl)
  next-get faults func h k = absurd (h refl)
