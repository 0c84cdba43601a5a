-- ===== src/Future/Chain.antt =====
-- `operator|` of include/daw/fs/future_result.h and `member_data_t::next` of
-- include/daw/fs/impl/future_result_impl.h, called in a row: a client that chains functions to a future
-- while the workers of a scheduler run the tasks. All values are of one type here, and the scheduler
-- takes every task.
pub mod Flow
pub mod Running
pub mod Piping
pub mod Result
use function_stream.Base.{
  ℕ, zero, suc, ◌≡◌, true, List, [], ◌∷◌, length, drop, Option, none, some, Outcome, returns,
  faults, ◌>>=◌,
}
use function_stream.Queue.{Spin, spinning}
use function_stream.Future
use function_stream.Future.{
  MemberData, Expected, fresh, from_code, set_exception, continuation, scheduled, passes_exception,
}

-- A future, the task that will fill it while that stands in a queue, and the function that `next`
-- has been given on it. The future that `next` returned stands behind it in the list.
pub record Cell (T : Type 0) : Type 0 where
  pub task : Option (Outcome T)
  pub future : MemberData T
  pub func : Option (T → Outcome T)

module _ {T : Type 0} where
  -- `future_result_t( ts )`.
  abbrev pub unfilled : Cell T
  unfilled = record { task = none; future = fresh; func = none }

  -- What the continuation was called with between two states.
  abbrev pub new_calls : MemberData T → MemberData T → List (Expected T)
  new_calls before after = drop (length before.calls) after.calls

  -- `ts->add_task( … )` for the future behind.
  unfoldable pub schedule : Outcome T → List (Cell T) → Outcome (List (Cell T))
  schedule body [] = faults
  schedule body (c ∷ cells) = returns (record c { task = some body } ∷ cells)

  -- One call of the continuation of `c`, before `cells`; `passed` is what an exception does to them.
  unfoldable pub continue :
      List (Expected T) → Cell T → List (Cell T) → Outcome (List (Cell T)) → Outcome (List (Cell T))
  unfolding schedule continuation
  continue [] c cells passed = returns (c ∷ cells)
  continue (v ∷ calls) c cells passed = elim c.func [
    | none ↦ faults
    | some func ↦
        (continuation true v >>= λ k.
        (elim k [ scheduled r ↦ schedule (func r) cells | passes_exception ↦ passed ]) >>= λ rest.
        returns (c ∷ rest))
  ]

  -- A call that fills the first future, with all that follows from it. Each holds the lock of its
  -- future, so that this is one step.
  unfoldable pub fill :
      (MemberData T → Outcome (MemberData T)) → List (Cell T) → Outcome (List (Cell T))
  unfolding continue set_exception
  fill set [] = faults
  fill set (c ∷ cells) =
      let passed = fill set_exception cells in
      set c.future >>= λ d. continue (new_calls c.future d) (record c { future = d }) cells passed

  -- `lhs.next( rhs )` on the last future.
  unfoldable pub pipe : (T → Outcome T) → List (Cell T) → Outcome (List (Cell T))
  unfolding continue Future.next fill
  pipe func [] = faults
  pipe func (c ∷ []) = Future.next c.future >>= λ d.
      continue (new_calls c.future d) (record c { future = d; func = some func }) (unfilled ∷ [])
        (fill set_exception (unfilled ∷ []))
  pipe func (c ∷ c' ∷ cells) = pipe func (c' ∷ cells) >>= λ rest. returns (c ∷ rest)

  abbrev pub behind : Cell T → Option (Outcome (List (Cell T))) → Option (Outcome (List (Cell T)))
  behind c none = none
  behind c (some o) = some (o >>= λ rest. returns (c ∷ rest))

  -- A worker runs the task of future `n`; none if there is no such task.
  unfoldable pub run_task : ℕ → List (Cell T) → Option (Outcome (List (Cell T)))
  unfolding fill from_code
  run_task n [] = none
  run_task zero (c ∷ cells) = elim c.task [
    | none ↦ none
    | some body ↦ some (fill (from_code body) (record c { task = none } ∷ cells))
  ]
  run_task (suc n) (c ∷ cells) = behind c (run_task n cells)

-- The futures, and the functions that the client has yet to chain.
pub record Chain (T : Type 0) : Type 0 where
  pub todo : List (T → Outcome T)
  pub cells : List (Cell T)

-- Who makes a step: the client, or the worker that has the task of a future.
pub data Actor : Type 0 where
  client : Actor
  worker : ℕ → Actor

module _ {T : Type 0} where
  abbrev with_cells :
      Chain T → List (T → Outcome T) → Option (Outcome (List (Cell T))) → Option (Outcome (Chain T))
  with_cells s todo none = none
  with_cells s todo (some o) = some (o >>= λ cells. returns (record { todo = todo; cells = cells }))

  -- none is an actor that has nothing to do.
  unfoldable pub advance : Actor → Chain T → Option (Outcome (Chain T))
  unfolding pipe run_task
  advance client s = elim s.todo [
    | [] ↦ none
    | func ∷ todo ↦ with_cells s todo (some (pipe func s.cells))
  ]
  advance (worker n) s = with_cells s s.todo (run_task n s.cells)

  -- `make_future_result( ts, func, args )` has returned, `body` being what its function will do.
  abbrev pub chained : Outcome T → List (T → Outcome T) → Chain T
  chained body todo = record { todo = todo; cells = record unfilled { task = some body } ∷ [] }

  -- What some number of steps lead to.
  pub data Reach (start : Chain T) : ℕ → Chain T → Type 0 where
    here : Reach start zero start
    next :
        {k : ℕ} {s t : Chain T} (a : Actor)
        → Reach start k s
        → advance a s ≡ some (returns t)
        → Reach start (suc k) t

  -- The functions called one after the other.
  abbrev pub in_a_row : Outcome T → List (T → Outcome T) → Outcome T
  in_a_row o [] = o
  in_a_row o (func ∷ funcs) = in_a_row (o >>= func) funcs

  -- What `get` gives on the last future.
  unfoldable pub get_last : List (Cell T) → Spin (Outcome T)
  get_last [] = spinning
  get_last (c ∷ []) = Future.get c.future
  get_last (c ∷ c' ∷ cells) = get_last (c' ∷ cells)
