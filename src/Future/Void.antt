-- ===== src/Future/Void.antt =====
-- `member_data_t<void>` of include/daw/fs/impl/future_result_impl.h and src/future_result.cpp: running
-- code and continuing, where these differ from the other futures.
use function_stream.Base.{
  ◌≡◌, refl, true, [], ◌∷◌, if◌then◌else◌, Outcome, returns, throws, faults, ◌>>=◌,
}
use function_stream.Latch.{notify, can_pass}
use function_stream.Queue.{stopped}
use function_stream.Future.{
  MemberData, exception, value, continued, is_ready, fresh, set_expected_void, pass_next_void, get,
}

-- The value stands for the `true` that the result of a `void` function holds.
module _ {R : Type 0} where
  -- `from_code`: an exception of `set_value( )` is caught as one of the function is.
  unfoldable pub from_code_void : Outcome R → MemberData R → Outcome (MemberData R)
  from_code_void (returns v) d = elim (set_expected_void (value v) d) [
    | returns d' ↦ returns d'
    | throws ↦ set_expected_void exception d
    | faults ↦ faults
  ]
  from_code_void throws d = set_expected_void exception d
  from_code_void faults d = faults

  -- `next`: a second continuation throws.
  unfoldable pub next_void : MemberData R → Outcome (MemberData R)
  next_void d =
      if d.has_next
      then throws
      else if is_ready d.status
      then (pass_next_void d.result (record d { has_next = true }) >>= λ d'.
          returns (record d' { status = continued }))
      else notify d.sem >>= λ s. returns (record d { has_next = true; status = continued; sem = s })

  -- A `void` future gives what its function did, like any other. A continuation is called with its
  -- value whichever comes first, but an exception is thrown at whoever comes second, the caller of
  -- `next` or the task, and reaches no continuation.
  pub from_code_void-next_void :
      (v : R)
      → ((from_code_void (returns v) fresh >>= λ d. returns (get d))
          ≡ returns (stopped (returns v)))
        × ((from_code_void throws (fresh {R = R}) >>= λ d. returns (get d))
            ≡ returns (stopped throws))
        × ((d e : MemberData R) × ((from_code_void (returns v) fresh >>= next_void) ≡ returns d)
            × ((next_void fresh >>= from_code_void (returns v)) ≡ returns e)
            × (d.calls ≡ value v ∷ [])
            × (e.calls ≡ value v ∷ []))
        × ((from_code_void throws (fresh {R = R}) >>= next_void) ≡ throws)
        × ((next_void (fresh {R = R}) >>= from_code_void throws) ≡ throws)
  unfolding from_code_void next_void set_expected_void pass_next_void get notify can_pass
  from_code_void-next_void v = (refl, refl, (_, _, refl, refl, refl, refl), refl, refl)
