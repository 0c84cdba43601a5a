-- ===== src/Future/Join.antt =====
-- `future_apply` and `join` of include/daw/fs/future_result.h: a function of the values of several
-- futures, here of one type.
use function_stream.Base.{
  ℕ, ◌≡◌, ◌≢◌, refl, ap, ◌∙◌, true, Bool, not, List, [], ◌∷◌, map, All, Option, none, some,
  if◌then◌else◌, Outcome, returns, throws, faults, ◌>>=◌,
}
use function_stream.Latch.{fixed_cnt_sem, notify, can_pass}
use function_stream.Queue.{Spin, stopped, spinning}
use function_stream.Group.{Group, Reach}
use function_stream.Future.{
  MemberData, value, exception, ready, fresh, from_code, set_value, set_exception, set_expected,
  get,
}
use function_stream.Future.Async.{
  Asynchronous, run_async, get_async, make_future_result, make_future_result-get,
}
use function_stream.Future.Forks.{Results, fork_task, add_fork_task, forks_deliver}

-- A value before those of the other futures.
abbrev put : {R : Type 0} → R → Spin (Outcome (List R)) → Spin (Outcome (List R))
put v (stopped (returns vs)) = stopped (returns (v ∷ vs))
put v (stopped throws) = stopped throws
put v (stopped faults) = stopped faults
put v spinning = spinning

-- What the first future gives, with what the others give.
abbrev with_first :
    {R : Type 0} → Spin (Outcome R) → Spin (Outcome (List R)) → Spin (Outcome (List R))
with_first spinning rest = spinning
with_first (stopped (returns v)) rest = put v rest
with_first (stopped throws) rest = stopped throws
with_first (stopped faults) rest = stopped faults

-- The arguments `std::get<I>( t ).get( )...`, evaluated from left to right.
unfoldable pub get_all : {R : Type 0} → List (MemberData R) → Spin (Outcome (List R))
get_all [] = stopped (returns [])
get_all (d ∷ ds) = with_first (get d) (get_all ds)

-- A task that waits forever is never run to its end.
abbrev pub ends : {S : Type 0} → Spin (Outcome S) → Option (Outcome S)
ends spinning = none
ends (stopped o) = some o

module _ {R S : Type 0} where
  unfoldable pub future_apply : (List R → Outcome S) → List (MemberData R) → Spin (Outcome S)
  unfolding get_all
  future_apply f t = elim (get_all t) [ spinning ↦ spinning | stopped vs ↦ stopped (vs >>= f) ]

  -- `join( results, next_function )`, `added` being whether its task was accepted.
  unfoldable pub join : Bool → List (MemberData R) → (List R → Outcome S) → Outcome (Asynchronous S)
  unfolding future_apply
  join added results next_function =
      if not added
      then throws
      else returns (record { task = ends (future_apply next_function results); future = fresh })

-- The functions in a row: their values, or the first exception.
abbrev pub in_a_row : {R : Type 0} → List (Outcome R) → Outcome (List R)
in_a_row [] = returns []
in_a_row (o ∷ os) = let rest = in_a_row os in o >>= λ v. rest >>= λ vs. returns (v ∷ vs)

module _ {R : Type 0} where
  with_first-stopped :
      (o : Outcome R) (os : Outcome (List R))
      → with_first (stopped o) (stopped os) ≡ stopped (o >>= λ v. os >>= λ vs. returns (v ∷ vs))
  with_first-stopped (returns v) (returns vs) = refl
  with_first-stopped (returns v) throws = refl
  with_first-stopped (returns v) faults = refl
  with_first-stopped throws os = refl
  with_first-stopped faults os = refl

  -- A future that a function has filled.
  filled-get :
      (o : Outcome R)
      → o ≢ faults
      → (d : MemberData R) × (from_code o fresh ≡ returns d) × (get d ≡ stopped o)
  unfolding from_code set_value set_exception set_expected get notify can_pass
  filled-get (returns v) h =
      (record fresh { result = value v; status = ready; sem = fixed_cnt_sem 0 }, refl, refl)
  filled-get throws h =
      (record fresh { result = exception; status = ready; sem = fixed_cnt_sem 0 }, refl, refl)
  filled-get faults h = absurd (h refl)

  filled-get_all :
      (funcs : List (Outcome R))
      → All (λ func. func ≢ faults) funcs
      → (ds : List (MemberData R)) × (map (λ func. from_code func fresh) funcs ≡ map returns ds)
        × (get_all ds ≡ stopped (in_a_row funcs))
  unfolding get_all
  filled-get_all [] h = ([], refl, refl)
  filled-get_all (o ∷ funcs) h =
      let (d, a, b) = filled-get o h.0 in
      let (ds, e, f) = filled-get_all funcs h.1 in
      (d ∷ ds, cc (a, e), rw (b, f) (with_first-stopped o (in_a_row funcs)))

module _ {R S : Type 0} where
  -- Once its futures are filled, a join is an asynchronous call.
  join-make_future_result :
      (ds : List (MemberData R)) (next_function : List R → Outcome S) (vs : Outcome (List R))
      → get_all ds ≡ stopped vs
      → join true ds next_function ≡ make_future_result true (vs >>= next_function)
  unfolding join future_apply make_future_result
  join-make_future_result ds next_function vs e =
      ap
        (λ x. returns (record {
          task =
              ends (elim x [ spinning ↦ spinning | stopped vs ↦ stopped (vs >>= next_function) ]);
          future = fresh;
        }))
        e

  -- Whenever a waiter passes the semaphore of a fork, whatever the interleaving was, joining the fork's
  -- futures gives, once the task of `join` has run, what the joining function makes of the values of
  -- the forked functions in their order, or an exception if one of them threw.
  pub join-forks :
      (funcs : List (Outcome R)) (next_function : List R → Outcome S)
      {g : Group (ℕ × Outcome R) (Results R)}
      → All (λ func. func ≢ faults) funcs
      → (in_a_row funcs >>= next_function) ≢ faults
      → Reach fork_task (add_fork_task funcs) g
      → can_pass g.sem ≡ true
      → (ds : List (MemberData R)) × (g.memory ≡ map returns ds)
        × ((join true ds next_function >>= run_async from_code >>= λ a. returns (get_async a))
            ≡ returns (stopped (in_a_row funcs >>= next_function)))
  join-forks funcs next_function h k r p =
      let (ds, e, f) = filled-get_all funcs h in
      let (_, _, run, _) = make_future_result-get (in_a_row funcs >>= next_function) k in
      (
        ds,
        forks_deliver funcs r p ∙ e,
        ap (λ j. j >>= run_async from_code >>= λ a. returns (get_async a))
              (join-make_future_result ds next_function (in_a_row funcs) f)
            ∙ run,
      )
