-- ===== src/Stream.antt =====
-- include/daw/fs/impl/function_stream_impl.h and include/daw/fs/function_stream.h: composed functions,
-- and a stream, which runs each of its functions as a task. A function takes one argument here.
pub mod Delivery
pub mod Package
pub mod Interface
use function_stream.Base.{
  ℕ, ◌+◌, ◌≡◌, refl, Bool, true, false, not, ◌&&◌, List, [], ◌∷◌, if◌then◌else◌, Option, none, some,
  Outcome, returns, throws, faults, ◌>>=◌,
}
use function_stream.Future.{MemberData, fresh, set_exception, from_code, wait_passes}

-- The tuple of functions, which is not empty: each takes what the one before it returns.
pub data Pipeline (C : Type 0) : Type 0 → Type 1 where
  only : {A : Type 0} → (A → Outcome C) → Pipeline C A
  stage : {A B : Type 0} → (A → Outcome B) → Pipeline C B → Pipeline C A

-- `function_composer_t::apply`, with `function_composer_impl`.
unfoldable pub apply : {C A : Type 0} → Pipeline C A → A → Outcome C
apply (only f) a = f a
apply (stage f p) a = f a >>= apply p

-- `future_generator_t::join`: `std::tuple_cat`.
unfoldable pub join : {D C A : Type 0} → Pipeline C A → Pipeline D C → Pipeline D A
join (only f) q = stage f q
join (stage f p) q = stage f (join p q)

-- `function_composer_t::next` and `future_generator_t::next`, of one function.
unfoldable pub next : {D C A : Type 0} → Pipeline C A → (C → Outcome D) → Pipeline D A
unfolding join
next p f = join p (only f)

-- What is left of the future when the package locks its weak pointer: none if it was destroyed.
abbrev pub Client : Type 0 → Type 0
Client C = Option (MemberData C)

module _ {C : Type 0} where
  -- The last function: its result goes to the future, if there still is one.
  unfoldable pub deliver : Outcome C → Client C → Outcome (Client C)
  unfolding from_code
  deliver o (some d) = from_code o d >>= λ d'. returns (some d')
  deliver o none = o >>= λ _. returns none

  -- The `catch` of a function that is not the last.
  unfoldable pub fail : Client C → Outcome (Client C)
  unfolding set_exception
  fail (some d) = set_exception d >>= λ d'. returns (some d')
  fail none = returns none

  -- What follows when the next function was sent: its task runs. When it was refused, the exception
  -- is caught, but the handle of the future has been moved to the package that was dropped.
  abbrev pub after_call : Option (Outcome (Client C)) → Client C → Outcome (Client C)
  after_call none c = returns c
  after_call (some o) c = o

  -- Whether `add_task` accepted the task, for each position.
  module _ (added : ℕ → Bool) (continue_processing : Bool) where
    -- `call_task`, for both tags. The `call` of the next function stands in it: none if its task is
    -- refused, and otherwise what that task does.
    unfoldable pub call_task : {A : Type 0} → ℕ → Pipeline C A → A → Client C → Outcome (Client C)
    unfolding deliver fail
    call_task pos (only f) a c = if not continue_processing then returns c else deliver (f a) c
    call_task pos (stage f p) a c = if continue_processing then returns c else (elim (f a) [
      | returns b ↦
          after_call (if not (added (pos + 1)) then none else some (call_task (pos + 1) p b c)) c
      | throws ↦ fail c
      | faults ↦ faults
    ])

    -- `call`: none is `unable_to_add_task_exception`.
    unfoldable pub call :
        {A : Type 0} → ℕ → Pipeline C A → A → Client C → Option (Outcome (Client C))
    unfolding call_task
    call pos p a c = if not (added pos) then none else some (call_task pos p a c)

    -- `function_stream::operator( )`: what becomes of the future that it returns.
    unfoldable pub stream : {A : Type 0} → Pipeline C A → A → Option (Outcome (Client C))
    unfolding call
    stream p a = call 0 p a (some fresh)

-- `operator|` of a `future_generator_t` or of a `function_composer_t` and a function, and of two
-- generators.
unfoldable pub pipe : {D C A : Type 0} → Pipeline C A → (C → Outcome D) → Pipeline D A
unfolding next
pipe lhs next_func = next lhs next_func

unfoldable pub pipe_join : {D C A : Type 0} → Pipeline C A → Pipeline D C → Pipeline D A
unfolding join
pipe_join lhs rhs = join lhs rhs

-- `wait_for_function_streams`: whether the wait for all futures returns.
unfoldable pub wait_for_function_streams : {C : Type 0} → List (MemberData C) → Bool
wait_for_function_streams [] = true
wait_for_function_streams (d ∷ waitables) = wait_passes d && wait_for_function_streams waitables
