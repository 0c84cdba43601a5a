-- ===== src/Stream/Interface.antt =====
-- include/daw/fs/function_stream.h and the composer of include/daw/fs/impl/function_stream_impl.h: the
-- objects that users make of functions, and call.
pub mod Laws
use function_stream.Base.{ℕ, ◌≡◌, Bool, true, Option, Outcome}
use function_stream.Callable.{Given, make_callable, Callable}
use function_stream.Callable
use function_stream.Stream
use function_stream.Stream.{Pipeline, only, stage, apply, join, Client}

-- The functions that a user gives.
pub data Functions (C : Type 0) : Type 0 → Type 1 where
  one : {A : Type 0} → Given A C → Functions C A
  more : {A B : Type 0} → Given A B → Functions C B → Functions C A

-- `fs::impl::make_callable` of each.
unfoldable pub callables : {C A : Type 0} → Functions C A → Pipeline C A
callables (one g) = only (Callable.call (make_callable g))
callables (more g gs) = stage (Callable.call (make_callable g)) (callables gs)

-- `function_stream`.
pub record FunctionStream (C A : Type 0) : Type 1 where
  pub funcs : Pipeline C A
  pub continue_on_result_destruction : Bool

module _ {C A : Type 0} where
  abbrev pub function_stream_of : Pipeline C A → FunctionStream C A
  function_stream_of funcs = record { funcs = funcs; continue_on_result_destruction = true }

  unfoldable pub make_function_stream : Functions C A → FunctionStream C A
  unfolding callables
  make_function_stream funcs = function_stream_of (callables funcs)

  -- `function_stream::operator( )`, `added n` being whether the task of function `n` is accepted.
  unfoldable pub call_stream : (ℕ → Bool) → FunctionStream C A → A → Option (Outcome (Client C))
  unfolding Stream.stream
  call_stream added fs a = Stream.stream added fs.continue_on_result_destruction fs.funcs a

-- `future_generator_t`.
pub record FutureGenerator (C A : Type 0) : Type 1 where
  pub generator_funcs : Pipeline C A

module _ {C A : Type 0} where
  -- `make_future_generator`, and the constructors.
  abbrev pub make_future_generator : Pipeline C A → FutureGenerator C A
  make_future_generator funcs = record { generator_funcs = funcs }

  abbrev pub compose_future : Pipeline C A → FutureGenerator C A
  compose_future funcs = make_future_generator funcs

  unfoldable pub get_function_stream : FutureGenerator C A → FunctionStream C A
  get_function_stream g = function_stream_of g.generator_funcs

  -- `future_generator_t::operator( )`.
  unfoldable pub call_generator : (ℕ → Bool) → FutureGenerator C A → A → Option (Outcome (Client C))
  unfolding get_function_stream call_stream
  call_generator added g a = call_stream added (get_function_stream g) a

-- `future_generator_t::next`, of one function, and `join`, each also as `operator|`.
unfoldable pub generator_next :
    {D C A : Type 0} → FutureGenerator C A → (C → Outcome D) → FutureGenerator D A
unfolding Stream.next
generator_next g next_function = make_future_generator (Stream.next g.generator_funcs next_function)

unfoldable pub generator_join :
    {D C A : Type 0} → FutureGenerator C A → FutureGenerator D C → FutureGenerator D A
unfolding join
generator_join g fut2 = make_future_generator (join g.generator_funcs fut2.generator_funcs)

-- `function_composer_t`.
pub record FunctionComposer (C A : Type 0) : Type 1 where
  pub composer_funcs : Pipeline C A

module _ {C A : Type 0} where
  -- `compose`, `compose_functions`.
  abbrev pub compose : Pipeline C A → FunctionComposer C A
  compose funcs = record { composer_funcs = funcs }

  -- `function_composer_t::operator( )`.
  unfoldable pub call_composer : FunctionComposer C A → A → Outcome C
  unfolding apply
  call_composer c a = apply c.composer_funcs a

unfoldable pub composer_next :
    {D C A : Type 0} → FunctionComposer C A → Given C D → FunctionComposer D A
unfolding Stream.next
composer_next c next_function =
    compose (Stream.next c.composer_funcs (Callable.call (make_callable next_function)))
