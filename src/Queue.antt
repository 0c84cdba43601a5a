-- ===== src/Queue.antt =====
-- include/daw/fs/message_queue.h: `concurrent_queue`, and the spinning `pop_front` and `push_back`.
-- Each member holds the queue's mutex for its whole body, so it is one atomic step. `acquired` says
-- whether `std::try_to_lock` got the mutex.
pub mod Fifo
pub mod Timed
use function_stream.Base.{
  ℕ, Bool, true, false, List, [], ◌∷◌, ◌++◌, Option, none, some, if◌then◌else◌,
}

pub data PushBackResult : Type 0 where
  failed success : PushBackResult

-- `m_queue`, its front first.
pub record ConcurrentQueue (T : Type 0) : Type 0 where
  pub items : List T

module _ {T : Type 0} where
  unfoldable pub try_push_back : Bool → T → ConcurrentQueue T → PushBackResult × ConcurrentQueue T
  try_push_back acquired value q =
      if acquired then (success, record { items = q.items ++ value ∷ [] }) else (failed, q)

  unfoldable pub push_back : T → ConcurrentQueue T → ConcurrentQueue T
  push_back value q = record { items = q.items ++ value ∷ [] }

  pop_items : List T → Option T × ConcurrentQueue T
  pop_items [] = (none, record { items = [] })
  pop_items (x ∷ xs) = (some x, record { items = xs })

  unfoldable pub try_pop_front : Bool → ConcurrentQueue T → Option T × ConcurrentQueue T
  unfolding pop_items
  try_pop_front acquired q = if acquired then pop_items q.items else (none, q)

  -- The blocking `pop_front` returns only when the queue holds something: none is a thread that waits.
  unfoldable pub pop_front : ConcurrentQueue T → Option T × ConcurrentQueue T
  unfolding pop_items
  pop_front q = pop_items q.items

  unfoldable pub empty : ConcurrentQueue T → Bool
  empty q = elim q.items [ [] ↦ true | _ ↦ false ]

-- What happens between two attempts of a spinning loop: what the other threads do to the queue, what
-- the loop's predicate answers, and whether the next attempt gets the mutex.
pub record Round (T : Type 0) : Type 0 where
  pub others : List T → List T
  pub continues : Bool
  pub acquired : Bool

-- A loop that has returned, or that spins at the end of the rounds.
pub data Spin {ℓ} (R : Type ℓ) : Type ℓ where
  stopped : R → Spin R
  spinning : Spin R

module _ {T : Type 0} where
  -- `while( not result and can_continue( ) ) result = q.try_pop_front( );`
  unfoldable pub pop_loop :
      List (Round T) → Option T × ConcurrentQueue T → Spin (Option T × ConcurrentQueue T)
  pop_loop rounds (some x, q) = stopped (some x, q)
  pop_loop [] (none, q) = spinning
  pop_loop (r ∷ rounds) (none, q) =
      let again =
        pop_loop rounds (try_pop_front r.acquired (record { items = r.others q.items })) in
      if r.continues then again else stopped (none, record { items = r.others q.items })

  unfoldable pub spin_pop_front :
      Bool → List (Round T) → ConcurrentQueue T → Spin (Option T × ConcurrentQueue T)
  spin_pop_front acquired rounds q = pop_loop rounds (try_pop_front acquired q)

  -- `while( result == failed and pred( ) ) result = q.try_push_back( DAW_MOVE( value ) );`
  unfoldable pub push_loop :
      T
      → List (Round T)
      → PushBackResult × ConcurrentQueue T
      → Spin (PushBackResult × ConcurrentQueue T)
  push_loop value rounds (success, q) = stopped (success, q)
  push_loop value [] (failed, q) = spinning
  push_loop value (r ∷ rounds) (failed, q) =
      let again =
        push_loop value rounds
          (try_push_back r.acquired value (record { items = r.others q.items })) in
      if r.continues then again else stopped (failed, record { items = r.others q.items })

  unfoldable pub spin_push_back :
      T → Bool → List (Round T) → ConcurrentQueue T → Spin (PushBackResult × ConcurrentQueue T)
  spin_push_back value acquired rounds q = push_loop value rounds (try_push_back acquired value q)
