-- ===== src/Stream/Delivery.antt =====
-- Composition, and what a stream delivers to its future.
use function_stream.Base.{
  ℕ, ◌+◌, ◌≡◌, refl, ap, sym, ◌∙◌, Bool, true, false, if◌then◌else◌, none, some, Outcome, returns,
  throws, faults, ◌>>=◌, not,
}
use function_stream.Future.{MemberData, fresh, set_exception, from_code, wait_passes}
use function_stream.Stream.{
  Pipeline, only, stage, apply, join, Client, deliver, fail, after_call, call_task, call, stream,
}

pub bind_assoc :
    {A B C : Type 0} (o : Outcome A) (f : A → Outcome B) (g : B → Outcome C)
    → ((o >>= f) >>= g) ≡ (o >>= λ a. f a >>= g)
bind_assoc (returns a) f g = refl
bind_assoc throws f g = refl
bind_assoc faults f g = refl

pub bind-ap :
    {A B : Type 0} (o : Outcome A) {f g : A → Outcome B}
    → ((a : A) → f a ≡ g a)
    → (o >>= f) ≡ (o >>= g)
bind-ap (returns a) h = h a
bind-ap throws h = refl
bind-ap faults h = refl

-- A joined pipeline computes what the second computes from the result of the first, and an exception
-- of the first is the exception of the whole.
pub apply-join :
    {C A D : Type 0} (p : Pipeline C A) (q : Pipeline D C) (a : A)
    → apply (join p q) a ≡ (apply p a >>= apply q)
unfolding apply join
apply-join (only f) q a = refl
apply-join (stage f p) q a =
    bind-ap (f a) (apply-join p q) ∙ sym (bind_assoc (f a) (apply p) (apply q))

-- Joining is associative, and so `next` after a join is a join with the second one extended.
pub join_assoc :
    {B A C D : Type 0} (p : Pipeline B A) (q : Pipeline C B) (r : Pipeline D C)
    → join (join p q) r ≡ join p (join q r)
unfolding join
join_assoc (only f) q r = refl
join_assoc (stage f p) q r = ap (stage f) (join_assoc p q r)

-- A stream of one function whose task is accepted gives its future what the function returns or throws.
pub stream_of_one :
    {A C : Type 0} (added : ℕ → Bool) (f : A → Outcome C) (a : A)
    → added 0 ≡ true
    → stream added true (only f) a
      ≡ some (from_code (apply (only f) a) fresh >>= λ d. returns (some d))
unfolding stream call call_task deliver apply
stream_of_one added f a h = rw h refl

-- The functions before the last, run one after the other as long as the next task is accepted.
unfoldable pub before_last : {C A : Type 0} → (ℕ → Bool) → ℕ → Pipeline C A → A → Outcome (Unit {0})
before_last added pos (only f) a = returns tt
before_last added pos (stage f p) a =
    f a >>= λ b. if not (added (pos + 1)) then returns tt else before_last added (pos + 1) p b

-- What the end of these makes of a future: nothing, or an exception.
abbrev pub undelivered : {C : Type 0} → MemberData C → Outcome (Unit {0}) → Outcome (Client C)
undelivered d (returns u) = returns (some d)
undelivered d throws = set_exception d >>= λ d'. returns (some d')
undelivered d faults = faults

module _ {C : Type 0} (added : ℕ → Bool) (d : MemberData C) where
  after_call-undelivered :
      (b : Bool) (o : Outcome (Client C)) (u : Outcome (Unit {0}))
      → o ≡ undelivered d u
      → after_call (if b then none else some o) (some d)
        ≡ undelivered d (if b then returns tt else u)
  after_call-undelivered true o u h = refl
  after_call-undelivered false o u h = h

  stopped-undelivered :
      {A : Type 0} (pos : ℕ) (p : Pipeline C A) (a : A)
      → call_task added false pos p a (some d) ≡ undelivered d (before_last added pos p a)
  unfolding before_last call_task fail
  stopped-undelivered pos (only f) a = refl
  stopped-undelivered pos (stage f p) a =
      elim (f a)
        as (λ o.
          elim o [
            | returns b ↦
                after_call
                  (if not (added (pos + 1))
                    then none
                    else some (call_task added false (pos + 1) p b (some d)))
                  (some d)
            | throws ↦ fail (some d)
            | faults ↦ faults
          ]
          ≡ undelivered d (
              o >>= λ b.
              if not (added (pos + 1)) then returns tt else before_last added (pos + 1) p b)) [
                | returns b ↦ after_call-undelivered _ _ _ (stopped-undelivered (pos + 1) p b)
                | throws ↦ refl
                | faults ↦ refl
              ]

  -- A stream of two or more functions never sets a value. With the default setting the task of a
  -- function that is not the last leaves the future as it was, without calling a function; without it,
  -- that task and those after it run the functions but for the last, as long as tasks are accepted, and
  -- the future gets nothing but the exception of one of these.
  pub stream_never_delivers :
      {A B : Type 0} (pos : ℕ) (f : A → Outcome B) (p : Pipeline C B) (a : A)
      → (call_task added true pos (stage f p) a (some d) ≡ returns (some d))
        × (call_task added false pos (stage f p) a (some d)
            ≡ undelivered d (before_last added pos (stage f p) a))
  unfolding call_task
  stream_never_delivers pos f p a = (refl, stopped-undelivered pos (stage f p) a)

-- With the default setting, a stream of two or more functions whose first task is accepted leaves its
-- future as it was, and a wait on it never returns.
pub stream_hangs :
    {A B C : Type 0} (added : ℕ → Bool) (f : A → Outcome B) (p : Pipeline C B) (a : A)
    → added 0 ≡ true
    → (stream added true (stage f p) a ≡ some (returns (some fresh)))
      × (wait_passes {R = C} fresh ≡ false)
unfolding stream call call_task wait_passes function_stream.Latch.can_pass
stream_hangs added f p a h = (rw h refl, refl)
