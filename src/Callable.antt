-- ===== src/Callable.antt =====
-- include/daw/fs/impl/daw_function.h: `make_callable`, which every function that a user gives to the
-- library goes through.
use function_stream.Base.{◌≡◌, refl, Option, none, some, Outcome, faults, ◌>>=◌, deref}

-- What a user may give: an object with a call operator, or a pointer to a function, which may be null.
pub data Given (A B : Type 0) : Type 0 where
  object : (A → Outcome B) → Given A B
  pointer : Option (A → Outcome B) → Given A B

-- `fp_callable_t`.
pub record FpCallable (A B : Type 0) : Type 0 where
  pub fp : Option (A → Outcome B)

-- What the library keeps.
pub data Callable (A B : Type 0) : Type 0 where
  itself : (A → Outcome B) → Callable A B
  wrapped : FpCallable A B → Callable A B

module _ {A B : Type 0} where
  -- `fp_callable_t::operator( )`, for functions that return something and for those that do not.
  unfoldable pub call_pointer : FpCallable A B → A → Outcome B
  call_pointer c a = deref c.fp >>= λ f. f a

  unfoldable pub make_callable : Given A B → Callable A B
  make_callable (object f) = itself f
  make_callable (pointer p) = wrapped (record { fp = p })

  unfoldable pub call : Callable A B → A → Outcome B
  unfolding call_pointer
  call (itself f) a = f a
  call (wrapped c) a = call_pointer c a

  -- The call that the user means.
  abbrev pub call_given : Given A B → A → Outcome B
  call_given (object f) a = f a
  call_given (pointer none) a = faults
  call_given (pointer (some f)) a = f a

  -- What the library calls is what it was given.
  pub call-make_callable : (g : Given A B) (a : A) → call (make_callable g) a ≡ call_given g a
  unfolding call make_callable call_pointer
  call-make_callable (object f) a = refl
  call-make_callable (pointer none) a = refl
  call-make_callable (pointer (some f)) a = refl
