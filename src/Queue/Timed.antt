-- ===== src/Queue/Timed.antt =====
-- include/daw/fs/message_queue.h: the spinning `pop_front` with a timeout.
use function_stream.Base.{
  ℕ, ◌+◌, ◌≤◌, ◌≡◌, ◌≢◌, refl, Bool, true, false, List, [], ◌∷◌, map, Option, none, some, ltb, ◌&&◌,
  if◌then◌else◌, ◌⊎◌, inl, inr, arith,
}
use function_stream.Queue.{
  ConcurrentQueue, Round, Spin, stopped, spinning, try_pop_front, pop_loop, spin_pop_front,
}

-- A round, with what the clock shows in it.
pub record TimedRound (T : Type 0) : Type 0 where
  pub round : Round T
  pub now : ℕ

module _ {T : Type 0} where
  -- `can_continue( ) and now( ) < end_time`.
  abbrev pub bounded : ℕ → TimedRound T → Round T
  bounded end_time r = record r.round { continues = r.round.continues && ltb r.now end_time }

  -- `pop_front( q, can_continue, timeout )`; `start` is the time after the first attempt.
  unfoldable pub pop_front_for :
      Bool → ℕ → ℕ → List (TimedRound T) → ConcurrentQueue T → Spin (Option T × ConcurrentQueue T)
  unfolding spin_pop_front
  pop_front_for acquired start timeout rounds q =
      spin_pop_front acquired (map (bounded (start + timeout)) rounds) q

  -- Some round comes at the end of the time, or later.
  abbrev pub RunsOut : ℕ → List (TimedRound T) → Type 0
  RunsOut end_time [] = ⊥
  RunsOut end_time (r ∷ rounds) = (end_time ≤ r.now) ⊎ RunsOut end_time rounds

  round-returns :
      (b : Bool) (again : Spin (Option T × ConcurrentQueue T)) (o : Option T × ConcurrentQueue T)
      → (b ≡ true → again ≢ spinning)
      → (if b then again else stopped o) ≢ spinning
  round-returns true again o h = h refl
  round-returns false again o h = λ e. cc

  pop_loop-returns :
      (end_time : ℕ) (rounds : List (TimedRound T)) (o : Option T × ConcurrentQueue T)
      → RunsOut end_time rounds
      → pop_loop (map (bounded end_time) rounds) o ≢ spinning
  unfolding pop_loop
  pop_loop-returns end_time [] o h = absurd h
  pop_loop-returns end_time (r ∷ rounds) (some x, q) h = λ e. cc
  pop_loop-returns end_time (r ∷ rounds) (none, q) h =
      round-returns (r.round.continues && ltb r.now end_time) _ _
        (λ b. pop_loop-returns end_time rounds _ (later b h))
    where
      later :
          (r.round.continues && ltb r.now end_time) ≡ true
          → RunsOut end_time (r ∷ rounds)
          → RunsOut end_time rounds
      later b (inl past) = absurd (ground arith)
      later b (inr h) = h

  -- Whatever the other threads do to the queue and to its mutex, a timed pop has returned by the
  -- first round in which the clock shows that its time is over.
  pub pop_front_for-returns :
      (acquired : Bool) (start timeout : ℕ) (rounds : List (TimedRound T)) (q : ConcurrentQueue T)
      → RunsOut (start + timeout) rounds
      → pop_front_for acquired start timeout rounds q ≢ spinning
  unfolding pop_front_for spin_pop_front
  pop_front_for-returns acquired start timeout rounds q h =
      pop_loop-returns (start + timeout) rounds (try_pop_front acquired q) h
