-- ===== src/Tests/Streams.antt =====
-- Futures of a number, and a pipeline of functions on numbers, one of which may throw.
use function_stream.Base.{
  ℕ, ◌-◌, ◌*◌, ◌≡◌, refl, Bool, true, false, [], ◌∷◌, some, if◌then◌else◌, ltb, Outcome, returns,
  throws, faults, ◌>>=◌,
}
use function_stream.Future.{MemberData, Expected, value, fresh, set_expected, fork}
use function_stream.Future.Delivery.{fork_loses_ready}
use function_stream.Stream.{Pipeline, only, stage, apply, join, call_task}
use function_stream.Stream.Delivery.{before_last, undelivered, stream_never_delivers}

abbrev three : Expected ℕ
three = value 3

abbrev new : MemberData ℕ
new = fresh

fork_loses_ready_example :
    ((set_expected three fresh >>= fork) ≡ faults)
    × ((d : MemberData ℕ) × ((fork fresh >>= set_expected three) ≡ returns d)
        × (d.calls ≡ three ∷ []))
fork_loses_ready_example = fork_loses_ready three

abbrev predecessor : ℕ → Outcome ℕ
predecessor n = if ltb 0 n then returns (n - 1) else throws

abbrev double : ℕ → Outcome ℕ
double n = returns (2 * n)

abbrev one : Pipeline ℕ ℕ
one = only predecessor

abbrev two : Pipeline ℕ ℕ
two = stage predecessor (only double)

abbrev accepts : ℕ → Bool
accepts pos = true

apply-join_test : apply (join two one) 3 ≡ returns 3
unfolding apply join
apply-join_test = refl

stream_never_delivers_example :
    (call_task accepts true 0 two 3 (some new) ≡ returns (some new))
    × (call_task accepts false 0 two 3 (some new) ≡ undelivered new (before_last accepts 0 two 3))
stream_never_delivers_example = stream_never_delivers accepts new 0 predecessor (only double) 3
