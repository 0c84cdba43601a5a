-- ===== src/Tests/Futures.antt =====
-- Futures of numbers: asynchronous calls, continuations, forks and groups.
use function_stream.Base.{
  ℕ, ◌+◌, ◌≡◌, refl, true, false, List, [], ◌∷◌, map, length, ◌==◌, if◌then◌else◌, none, some,
  Outcome, returns, throws, faults, ◌>>=◌,
}
use function_stream.Latch.{fixed_cnt_sem, add_notifier, notify, can_pass}
use function_stream.Queue.{stopped, spinning}
use function_stream.Group.{Group, Reach, here, next, schedule, leave, execute}
use function_stream.Future.{MemberData, Expected, empty, fresh, from_code}
use function_stream.Future.Async.{
  make_future_result, run_async, future_task, get_async, make_future_result-get,
}
use function_stream.Future.Forks.{Results, fork_task, add_fork_task}
use function_stream.Future.Join.{join, in_a_row, join-forks}
use function_stream.Future.Callables.{apply_task, apply_many, worker_end, future_group-hangs}

abbrev three : Outcome ℕ
three = returns 3

make_future_result-get_example :
    (make_future_result false three ≡ throws)
    × ((make_future_result true three >>= λ a. returns (get_async a)) ≡ returns spinning)
    × ((make_future_result true three >>= run_async from_code >>= λ a. returns (get_async a))
        ≡ returns (stopped three))
    × ((make_future_result true three >>= run_async future_task >>= λ a. returns (get_async a))
        ≡ returns (stopped three))
make_future_result-get_example = make_future_result-get three (λ e. cc)

abbrev succeed : ℕ → Outcome ℕ
succeed n = returns (n + 1)

-- A fork into a function that returns and one that throws, of which the second ran first.
abbrev pub functions : List (Outcome ℕ)
functions = returns 4 ∷ throws ∷ []

abbrev pub forked : Group (ℕ × Outcome ℕ) (Results ℕ)
forked = record {
  todo = [];
  queued = [];
  finished = (1, throws) ∷ (0, returns 4) ∷ [];
  sem = fixed_cnt_sem 0;
  scoped = false;
  memory = from_code (returns 4) fresh ∷ from_code throws fresh ∷ [];
}

pub to_forked : Reach fork_task (add_fork_task functions) forked
unfolding add_fork_task fork_task function_stream.Parallel.Parts.located add_notifier notify
to_forked =
    next
      (next
        (next
          (next (next here (schedule (0, returns 4) ((1, throws) ∷ []) refl refl))
            (schedule (1, throws) [] refl refl))
          (execute ((0, returns 4) ∷ []) [] (1, throws) (fixed_cnt_sem 2) refl refl refl))
        (leave (fixed_cnt_sem 1) refl refl refl refl))
      (execute [] [] (0, returns 4) (fixed_cnt_sem 0) refl refl refl)

pub forked-can_pass : can_pass forked.sem ≡ true
unfolding can_pass
forked-can_pass = refl

abbrev add_up : List ℕ → Outcome ℕ
add_up [] = returns 0
add_up (v ∷ vs) = add_up vs >>= λ n. returns (v + n)

join-forks_example :
    (ds : List (MemberData ℕ)) × (forked.memory ≡ map returns ds)
    × ((join true ds add_up >>= run_async from_code >>= λ a. returns (get_async a))
        ≡ returns (stopped (in_a_row functions >>= add_up)))
join-forks_example =
    join-forks functions add_up ((λ e. cc), ((λ e. cc), tt)) (λ e. cc) to_forked forked-can_pass

-- A group of two functions, the first of which is scheduled.
abbrev started : Group (Outcome ℕ) (List (Expected ℕ))
started = record {
  todo = throws ∷ [];
  queued = returns 4 ∷ [];
  finished = [];
  sem = fixed_cnt_sem 3;
  scoped = false;
  memory = empty ∷ empty ∷ [];
}

to_started : Reach apply_task (apply_many functions) started
unfolding apply_many add_notifier
to_started = next here (schedule (returns 4) (throws ∷ []) refl refl)

future_group-hangs_example :
    worker_end started ≡ (if length functions == 0 then some faults else none)
future_group-hangs_example = future_group-hangs functions to_started
