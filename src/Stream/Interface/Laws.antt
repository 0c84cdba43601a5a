-- ===== src/Stream/Interface/Laws.antt =====
-- What the objects made of functions do, and how they combine.
use function_stream.Base.{ℕ, ◌≡◌, ap, ◌∙◌, Bool, true, some, Outcome, returns, ◌>>=◌}
use function_stream.Callable
use function_stream.Callable.{Given, make_callable, call-make_callable, call_given}
use function_stream.Future.{fresh, from_code}
use function_stream.Stream
use function_stream.Stream.{only, apply, join}
use function_stream.Stream.Delivery.{apply-join, join_assoc, bind-ap, stream_of_one}
use function_stream.Stream.Interface.{
  Functions, one, more, callables, make_function_stream, call_stream, FutureGenerator,
  call_generator, generator_next, generator_join, call_composer, composer_next, compose,
  get_function_stream,
}

-- The functions of a user, called one after the other.
abbrev pub in_turn : {C A : Type 0} → Functions C A → A → Outcome C
in_turn (one g) a = call_given g a
in_turn (more g gs) a = call_given g a >>= in_turn gs

callables-in_turn :
    {C A : Type 0} (gs : Functions C A) (a : A) → apply (callables gs) a ≡ in_turn gs a
unfolding apply callables
callables-in_turn (one g) a = call-make_callable g a
callables-in_turn (more g gs) a =
    bind-ap (Callable.call (make_callable g) a) (callables-in_turn gs)
    ∙ ap (λ o. o >>= in_turn gs) (call-make_callable g a)

-- A composer of the functions of a user, extended by one more, calls them all in turn, each with the
-- result of the one before; an exception of one is the exception of the whole, and a null function
-- pointer faults when its turn comes.
pub composer-in_turn :
    {C D A : Type 0} (gs : Functions C A) (g : Given C D) (a : A)
    → (call_composer (compose (callables gs)) a ≡ in_turn gs a)
      × (call_composer (composer_next (compose (callables gs)) g) a
          ≡ (in_turn gs a >>= call_given g))
unfolding call_composer composer_next Stream.next
composer-in_turn gs g a = (
  callables-in_turn gs a,
  apply-join (callables gs) (only (Callable.call (make_callable g))) a
      ∙ ap (λ o. o >>= apply (only (Callable.call (make_callable g)))) (callables-in_turn gs a)
      ∙ unfold apply in bind-ap (in_turn gs a) (call-make_callable g),
)

-- `operator|` of three generators may be grouped either way: the calls do the same, whichever tasks are
-- accepted. One more function on a joined generator is one more on the second part.
pub generators_assoc :
    {A B C D : Type 0} (added : ℕ → Bool) (p : FutureGenerator B A) (q : FutureGenerator C B)
    (r : FutureGenerator D C) (f : C → Outcome D) (a : A)
    → (call_generator added (generator_join (generator_join p q) r) a
        ≡ call_generator added (generator_join p (generator_join q r)) a)
      × (generator_next (generator_join p q) f ≡ generator_join p (generator_next q f))
unfolding call_generator generator_join generator_next get_function_stream call_stream Stream.next
generators_assoc added p q r f a = (
  ap (λ funcs. Stream.stream added true funcs a)
      (join_assoc p.generator_funcs q.generator_funcs r.generator_funcs),
  ap (λ funcs. record { generator_funcs = funcs })
      (join_assoc p.generator_funcs q.generator_funcs (only f)),
)

-- A stream of one function whose task is accepted gives its future what that function does.
pub stream_of_given :
    {A C : Type 0} (added : ℕ → Bool) (g : Given A C) (a : A)
    → added 0 ≡ true
    → call_stream added (make_function_stream (one g)) a
      ≡ some (from_code (call_given g a) fresh >>= λ d. returns (some d))
unfolding call_stream make_function_stream callables
stream_of_given added g a h =
    stream_of_one added (Callable.call (make_callable g)) a h
    ∙ ap (λ o. some (from_code o fresh >>= λ d. returns (some d)))
        (unfold apply in call-make_callable g a)
