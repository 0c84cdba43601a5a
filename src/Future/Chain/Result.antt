-- ===== src/Future/Chain/Result.antt =====
-- What a chain of futures gives.
use function_stream.Base.{
  ℕ, suc, ◌+◌, ◌*◌, ◌≤◌, ◌≡◌, ◌≢◌, ◌⊎◌, List, length, Option, none, some, Outcome, returns, faults,
  All,
}
use function_stream.Queue.{stopped}
use function_stream.Future
use function_stream.Future.{
  MemberData, Expected, value, exception, Expected.empty, ready, continued, fresh, from_code,
  set_exception, set_value, set_expected, continuation,
}
use function_stream.Future.Chain.{Cell, Chain, Actor, advance, in_a_row, get_last}
use function_stream.Future.Chain.Flow.{Total, Flows}

module _ {T : Type 0} (body : Outcome T) (all : List (T → Outcome T)) where
  -- Some actor has a step to make, or none has and the last future has the result.
  abbrev pub Ends : Chain T → Type 0
  Ends s =
      ((a : Actor) × (t : Chain T) × (advance a s ≡ some (returns t)))
      ⊎ (((a : Actor) → advance a s ≡ none) × (get_last s.cells ≡ stopped (in_a_row body all)))

module _ {T : Type 0} (body : Outcome T) (all : List (T → Outcome T)) (total : body ≢ faults)
    (all_total : All Total all) where
  -- What holds after `k` steps.
  abbrev Going : ℕ → Chain T → Type 0
  Going k s =
      (left : ℕ) × Flows (in_a_row body all) s.todo s.cells left
      × All Total s.todo
      × (k + 2 * length s.todo + left ≤ 2 * length all + 1)

  abbrev Steps : ℕ → Option (Outcome (Chain T)) → Type 0
  Steps k o = (t : Chain T) × (o ≡ some (returns t)) × Going (suc k) t

  abbrev chain : List (T → Outcome T) → List (Cell T) → Chain T
  chain todo cells = record { todo = todo; cells = cells }
