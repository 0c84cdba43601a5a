-- ===== src/Future/Chain/Flow.antt =====
-- How a value runs through a chain of futures.
use function_stream.Base.{
  ℕ, suc, ◌≤◌, ◌≡◌, ◌≢◌, refl, ap, sym, ◌∙◌, true, List, [], ◌∷◌, ◌++◌, length, Option, none, some,
  Outcome, returns, throws, faults, All, arith,
}
use function_stream.Latch.{notify}
use function_stream.Future.{
  MemberData, Expected, value, exception, ready, continued, fresh, from_code, set_exception,
  set_value, set_expected, continuation,
}
use function_stream.Future.Chain.{Cell, schedule, continue, fill, in_a_row}

module _ {T : Type 0} where
  -- A future that was continued before it got its value.
  abbrev pub waiting : MemberData T
  waiting = record fresh { has_next = true; status = continued; sem = record { value = 0 } }

  abbrev pub expected : Outcome T → Expected T
  expected (returns v) = value v
  expected throws = exception
  expected faults = Expected.empty

  abbrev pub filled : Outcome T → MemberData T
  filled o = record fresh { status = ready; result = expected o; sem = record { value = 0 } }

  -- The futures that wait for one whose task may be given.
  abbrev pub pending : Option (Outcome T) → List (T → Outcome T) → List (Cell T)
  pending task [] = record { task = task; future = fresh; func = none } ∷ []
  pending task (func ∷ funcs) =
      record { task = task; future = waiting; func = some func } ∷ pending none funcs

  abbrev pub last_filled : Outcome T → List (Cell T)
  last_filled o = record { task = none; future = filled o; func = none } ∷ []

  abbrev pub IsIdle : Cell T → Type 0
  IsIdle c = c.task ≡ none

  abbrev pub Total : (T → Outcome T) → Type 0
  Total func = (v : T) → func v ≢ faults

  -- The value is on its way: the futures before are through, and its task stands in a queue, or the
  -- last future has it. `left` is the number of tasks that may be left to run.
  pub data Flows (result : Outcome T) (todo : List (T → Outcome T)) (cells : List (Cell T))
      (left : ℕ) : Type 0 where
    flowing :
        (before : List (Cell T)) (o : Outcome T) (funcs : List (T → Outcome T))
        → All IsIdle before
        → o ≢ faults
        → All Total funcs
        → cells ≡ before ++ pending (some o) funcs
        → in_a_row (in_a_row o funcs) todo ≡ result
        → left ≡ suc (length funcs)
        → Flows result todo cells left
    settled :
        (before : List (Cell T)) (o : Outcome T)
        → All IsIdle before
        → o ≢ faults
        → cells ≡ before ++ last_filled o
        → in_a_row o todo ≡ result
        → left ≡ 0
        → Flows result todo cells left

  pub in_a_row-throws : (funcs : List (T → Outcome T)) → in_a_row throws funcs ≡ throws
  in_a_row-throws [] = refl
  in_a_row-throws (func ∷ funcs) = in_a_row-throws funcs

  -- An exception runs through to the last future.
  pub fill-passes :
      (funcs : List (T → Outcome T))
      → (before : List (Cell T)) × All IsIdle before
        × (fill set_exception (pending none funcs) ≡ returns (before ++ last_filled throws))
  unfolding fill continue set_exception set_expected notify continuation
  fill-passes [] = ([], tt, refl)
  fill-passes (func ∷ funcs) =
      let (before, idle, e) = fill-passes funcs in
      (
        record { task = none; future = record waiting { calls = exception ∷ [] }; func = some func }
            ∷ before,
        (refl, idle),
        rw e refl,
      )

  -- The task of the first of these futures.
  pub fill-Flows :
      (result : Outcome T) (todo : List (T → Outcome T)) (o : Outcome T)
      (funcs : List (T → Outcome T))
      → o ≢ faults
      → All Total funcs
      → in_a_row (in_a_row o funcs) todo ≡ result
      → (cells : List (Cell T)) × (left : ℕ) × (fill (from_code o) (pending none funcs)
          ≡ returns cells)
        × Flows result todo cells left
        × (left ≤ length funcs)
  unfolding fill continue from_code set_value set_exception set_expected notify continuation
      schedule
  fill-Flows result todo (returns v) [] h k e =
      (_, 0, refl, settled [] (returns v) tt h refl e refl, omega arith)
  fill-Flows result todo (returns v) (func ∷ []) h k e =
      (_, 1, refl, flowing (_ ∷ []) (func v) [] (refl, tt) (k.0 v) tt refl e refl, omega arith)
  fill-Flows result todo (returns v) (func ∷ g ∷ funcs) h k e = (
    _,
    suc (length (g ∷ funcs)),
    refl,
    flowing (_ ∷ []) (func v) (g ∷ funcs) (refl, tt) (k.0 v) k.1 refl e refl,
    omega arith,
  )
  fill-Flows result todo throws funcs h k e =
      let (before, idle, f) = fill-passes funcs in
      (
        before ++ last_filled throws,
        0,
        f,
        settled before throws idle h refl
            (ap (λ o. in_a_row o todo) (sym (in_a_row-throws funcs)) ∙ e) refl,
        omega arith,
      )
  fill-Flows result todo faults funcs h k e = absurd (h refl)

  -- A future in front that has nothing to do.
  pub Flows-cons :
      (result : Outcome T) (todo : List (T → Outcome T)) (c : Cell T) (cells : List (Cell T))
      (left : ℕ)
      → IsIdle c
      → Flows result todo cells left
      → Flows result todo (c ∷ cells) left
  Flows-cons result todo c cells left i (flowing before o funcs idle h k e f l) =
      flowing (c ∷ before) o funcs (i, idle) h k (ap (◌∷◌ c) e) f l
  Flows-cons result todo c cells left i (settled before o idle h e f l) =
      settled (c ∷ before) o (i, idle) h (ap (◌∷◌ c) e) f l
