-- ===== src/Future/Callables.antt =====
-- `future_group_result_t` and `apply_many` of include/daw/fs/impl/future_result_impl.h, which
-- `make_callable_future_result_group` and `make_future_result_group` call. A function is seen by what
-- it does with the arguments.
use function_stream.Base.{
  ◌≡◌, refl, List, [], ◌∷◌, length, map, Option, none, some, Outcome, returns, faults, ◌>>=◌,
  if◌then◌else◌, ◌==◌, arith,
}
use function_stream.Latch.{can_pass, notify}
use function_stream.Group.{Group, preset_group, Reach}
use function_stream.Group.Preset.{preset_never_opens, preset-empty}
use function_stream.Future.{MemberData, Expected, empty, fresh, set_value, set_expected}

module _ {R : Type 0} where
  -- What a task of `apply_many` does to the tuple of results that the worker holds: nothing, since the
  -- task has captured a copy of the tuple, and stores what its function gives there.
  unfoldable pub apply_task : Outcome R → List (Expected R) → List (Expected R)
  apply_task func results = results

  -- The semaphore and the tasks of `operator( )`: one for each function, the semaphore being preset to
  -- their number. The memory is `tp_result`.
  unfoldable pub apply_many : List (Outcome R) → Group (Outcome R) (List (Expected R))
  apply_many funcs = preset_group funcs (map (λ func. empty) funcs)

  -- What the worker does once `apply_many` has returned, `g` being the group at that time: it waits
  -- (none), sets the value of the future, which has the same semaphore, and notifies it at the end of
  -- the scope.
  unfoldable pub worker_end :
      Group (Outcome R) (List (Expected R)) → Option (Outcome (MemberData (List (Expected R))))
  worker_end g =
      if can_pass g.sem
      then some (do
        d ← set_value g.memory (record fresh { sem = g.sem })
        s ← notify d.sem
        returns (record d { sem = s }))
      else none

  -- A group of futures never gives its results: in whatever state of the group its worker has come to
  -- the wait, it waits if there is a function, and if there is none, it fails the assertion of the
  -- semaphore when it sets the value.
  pub future_group-hangs :
      (funcs : List (Outcome R)) {g : Group (Outcome R) (List (Expected R))}
      → Reach apply_task (apply_many funcs) g
      → worker_end g ≡ (if length funcs == 0 then some faults else none)
  unfolding apply_many worker_end
  future_group-hangs [] r =
      rw (preset-empty apply_task r) (unfold set_value set_expected can_pass notify in refl)
  future_group-hangs (func ∷ funcs) r =
      ground (arith, preset_never_opens apply_task (omega arith) r)
