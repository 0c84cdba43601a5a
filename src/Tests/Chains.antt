-- ===== src/Tests/Chains.antt =====
-- Futures of numbers that are chained, forked, shared and asked for what they have.
use function_stream.Base.{
  ℕ, ◌+◌, ◌*◌, ◌≡◌, ◌≢◌, refl, true, false, List, [], ◌∷◌, map, none, some, Outcome, returns,
  throws, ◌>>=◌,
}
use function_stream.Queue.{stopped}
use function_stream.Future
use function_stream.Future.{
  MemberData, Expected, value, continued, ready, fresh, from_code, set_exception, fork,
}
use function_stream.Future.Chain.{Cell, Chain, Reach, here}
use function_stream.Future.Forks.{add_fork_task}
use function_stream.Future.Refused.{expected_from_code}
use function_stream.Future.Forking.{Forked, tasks, fork_continuation, run_fork, get_each, fork-get}
use function_stream.Future.Interface
use function_stream.Future.Interface.States
use function_stream.Future.Handles
use function_stream.Future.Handles.{Shared}
use function_stream.Future.Handles.Lifetime.{continued_never_expires}
use function_stream.Tests.Futures.{functions, forked, to_forked, forked-can_pass}

abbrev body : Outcome ℕ
body = returns 3

abbrev chained_functions : List (ℕ → Outcome ℕ)
chained_functions = (λ n. returns (n + 1)) ∷ (λ n. returns (n * 2)) ∷ []

-- The client chains one function before the task runs, and the other behind.
abbrev passed : Expected ℕ → (ℕ → Outcome ℕ) → Cell ℕ
passed v func = record {
  task = none;
  future = record fresh {
    has_next = true;
    status = continued;
    sem = record { value = 0 };
    calls = v ∷ [];
  };
  func = some func;
}

abbrev midway : Chain ℕ
midway = record {
  todo = (λ n. returns (n * 2)) ∷ [];
  cells =
      passed (value 3) (λ n. returns (n + 1))
      ∷ record { task = some (returns 4); future = fresh; func = none }
      ∷ [];
}

-- A fork into a function that returns and one that throws.
abbrev branches : List (ℕ → Outcome ℕ)
branches = (λ n. returns (n + 1)) ∷ (λ n. throws) ∷ []

abbrev branch_tasks : Forked ℕ
branch_tasks = tasks (add_fork_task functions)

branches_run : run_fork true branches (value 3 ∷ []) ≡ returns branch_tasks
unfolding run_fork fork_continuation
branches_run = refl

fork-get_example :
    ((d : MemberData ℕ) × ((fork fresh >>= from_code body) ≡ returns d)
      × (d.calls ≡ expected_from_code body ∷ []))
    × (get_each forked.memory ≡ map (λ func. returns (stopped (body >>= func))) branches)
fork-get_example =
    fork-get body branches branch_tasks forked.memory (λ e. cc) ((λ v e. cc), ((λ v e. cc), tt))
      branches_run (forked, to_forked, forked-can_pass, refl)

-- A future that has its result, and one that was continued behind it.
abbrev has_four : MemberData ℕ
has_four = record fresh { status = ready; sem = record { value = 0 }; result = value 4 }

-- A future that was continued, and its copies.
abbrev continued_future : MemberData ℕ
continued_future = record fresh { has_next = true; status = continued; sem = record { value = 0 } }

abbrev owned : ℕ → Shared ℕ
owned clients = record { clients = clients; content = some continued_future }

leaked_reached : Handles.Reach (owned 1) (owned 0)
unfolding Handles.perform Handles.destroy_unowned Handles.use_count
leaked_reached = Handles.next_call Handles.drops Handles.here refl

continued_never_expires_example : (Handles.expired (owned 0) ≡ false) × ((owned 0).content ≢ none)
continued_never_expires_example = continued_never_expires continued_future refl refl leaked_reached
