-- ===== src/Future/Delivery.antt =====
-- What becomes of the value of a future.
use function_stream.Base.{◌≡◌, refl, true, false, [], ◌∷◌, returns, throws, faults, ◌>>=◌}
use function_stream.Latch.{notify, can_pass}
use function_stream.Queue.{stopped, spinning}
use function_stream.Future.{
  MemberData, Expected, exception, value, continued, fresh, set_expected, next, fork, get,
  get_expected, set_expected_void, continuation, continuation_void, scheduled,
}

module _ {R : Type 0} where
  -- Whichever of the result and the continuation comes first, the continuation is called exactly
  -- once, with the result, the future is continued, and its waiters pass.
  pub next_delivers_once :
      (v : Expected R)
      → (d e : MemberData R) × ((set_expected v fresh >>= next) ≡ returns d)
        × ((next fresh >>= set_expected v) ≡ returns e)
        × (d.calls ≡ v ∷ [])
        × (e.calls ≡ v ∷ [])
        × (d.status ≡ continued)
        × (e.status ≡ continued)
        × (can_pass d.sem ≡ true)
        × (can_pass e.sem ≡ true)
  unfolding set_expected next notify can_pass
  next_delivers_once v = (_, _, refl, refl, refl, refl, refl, refl, refl, refl)

  -- `fork` delivers a result that comes after it, but on a future that is ready it fails the assertion
  -- of the semaphore.
  pub fork_loses_ready :
      (v : Expected R)
      → ((set_expected v fresh >>= fork) ≡ faults)
        × ((d : MemberData R) × ((fork fresh >>= set_expected v) ≡ returns d) × (d.calls ≡ v ∷ []))
  unfolding set_expected fork notify
  fork_loses_ready v = (refl, (_, refl, refl))

  -- `get` waits for a result, then gives it or rethrows; after `next` it throws; and a result that is
  -- set a second time fails the assertion of the semaphore.
  pub get_observes :
      (v w : Expected R)
      → (get {R = R} fresh ≡ spinning)
        × ((set_expected v fresh >>= λ d. returns (get d)) ≡ returns (stopped (get_expected v)))
        × ((next {R = R} fresh >>= λ d. returns (get d)) ≡ returns (stopped throws))
        × ((set_expected v fresh >>= set_expected w) ≡ faults)
  unfolding set_expected next get notify can_pass
  get_observes v w = (refl, refl, refl, refl)

  -- The continuation of a `void` future is never reached by an exception: it is thrown at the task
  -- that sets it. A value reaches it, and then it throws exactly if its task was accepted, where that
  -- of any other future throws exactly if its task was refused.
  pub void_continuation :
      (v : R)
      → ((next {R = R} fresh >>= set_expected_void exception) ≡ throws)
        × (continuation_void true (value v) ≡ throws)
        × (continuation_void false (value v) ≡ returns (scheduled v))
        × (continuation true (value v) ≡ returns (scheduled v))
        × (continuation false (value v) ≡ throws)
  unfolding next set_expected_void notify continuation continuation_void
  void_continuation v = (refl, refl, refl, refl, refl)
