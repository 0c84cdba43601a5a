-- ===== src/Thread/Lifetime.antt =====
-- include/daw/fs/impl/ithread.h: what the owner of a thread may rely on, and when the memory of a
-- `fixed_ithread` is given back too early.
use function_stream.Base.{
  ◌≡◌, ◌≢◌, refl, sym, ap, ◌∙◌, ◌||◌, not, append_assoc, true, false, Bool, List, [], ◌∷◌, ◌++◌,
  some, returns, All, arith,
}
use function_stream.Latch.{notify, reset, try_wait}
use function_stream.Thread.{
  FixedIthread, Action, stop, wait, join, detach, join_if_joinable, release, ended, act, advance,
  can_continue, destructor, Owned, started_with, Step, owner, worker, Reach, here, next,
  stop_tokens,
}

-- The actions free only what was joined, and detach nothing; the Boolean says that a join is behind.
abbrev pub Orderly : Bool → List Action → Type 0
Orderly joined [] = Unit {0}
Orderly joined (stop ∷ rest) = Orderly joined rest
Orderly joined (wait ∷ rest) = Orderly joined rest
Orderly joined (join ∷ rest) = Orderly true rest
Orderly joined (detach ∷ rest) = ⊥
Orderly joined (join_if_joinable ∷ rest) = Orderly true rest
Orderly joined (release ∷ rest) = (joined ≡ true) × Orderly joined rest

pub record Inv (joined : Bool) (g : Owned) : Type 0 where
  pub orderly : Orderly joined g.todo
  pub joined_only : joined ≡ true → g.thread.joinable ≡ false
  pub joined_ended : g.thread.joinable ≡ false → g.thread.phase ≡ ended
  pub freed_joined : g.thread.freed ≡ true → g.thread.joinable ≡ false

act-Inv :
    (joined : Bool) (a : Action) (rest : List Action) (t u : FixedIthread)
    → Inv joined (record { todo = a ∷ rest; thread = t })
    → act a t ≡ some (returns u)
    → (b : Bool) × Inv b (record { todo = rest; thread = u })
unfolding act
act-Inv joined stop rest t u i e = (joined, ground arith)
act-Inv joined wait rest t u i e = (joined, ground arith)
act-Inv joined join rest t u i e = (true, ground arith)
act-Inv joined detach rest t u i e = absurd i.orderly
act-Inv joined join_if_joinable rest t u i e = (true, ground arith)
act-Inv joined release rest t u i e = (joined, ground arith)

advance-Inv :
    (joined : Bool) (todo : List Action) (t u : FixedIthread)
    → Inv joined (record { todo = todo; thread = t })
    → advance t ≡ some (returns u)
    → Inv joined (record { todo = todo; thread = u })
unfolding advance notify
advance-Inv joined todo t u i e = ground arith

Step-Inv : (joined : Bool) {g h : Owned} → Inv joined g → Step g h → (b : Bool) × Inv b h
Step-Inv joined {g} i (owner a rest t e f q) =
    rw q (act-Inv joined a rest g.thread t (rw (sym e) i) f)
Step-Inv joined {g} i (worker t e q) = rw q (joined, advance-Inv joined g.todo g.thread t i e)

Reach-Inv :
    {actions : List Action} {g : Owned}
    → Orderly false actions
    → Reach (started_with actions) g
    → (b : Bool) × Inv b g
Reach-Inv o here = (
  false,
  record { orderly = o; joined_only = λ e. cc; joined_ended = λ e. cc; freed_joined = λ e. cc },
)
Reach-Inv o (next r st) = let (b, i) = Reach-Inv o r in Step-Inv b i st

-- What an owner may do before its destructor, if its thread is to be joined there.
abbrev pub IsMild : Action → Type 0
IsMild a = (a ≢ detach) × (a ≢ release)

Orderly-destructor :
    (joined : Bool) (calls : List Action) → All IsMild calls → Orderly joined (calls ++ destructor)
Orderly-destructor joined [] m = (refl, tt)
Orderly-destructor joined (stop ∷ calls) m = Orderly-destructor joined calls m.1
Orderly-destructor joined (wait ∷ calls) m = Orderly-destructor joined calls m.1
Orderly-destructor joined (join ∷ calls) m = Orderly-destructor true calls m.1
Orderly-destructor joined (join_if_joinable ∷ calls) m = Orderly-destructor true calls m.1
Orderly-destructor joined (detach ∷ calls) m = absurd (m.0.0 refl)
Orderly-destructor joined (release ∷ calls) m = absurd (m.0.1 refl)

-- Whatever an owner calls before it destroys its `fixed_ithread`, `detach` apart, and however the
-- steps interleave: when the memory is given back, the thread has ended, so that it touches nothing
-- of it any more.
pub destructor-joins :
    (calls : List Action) {g : Owned}
    → All IsMild calls
    → Reach (started_with (calls ++ destructor)) g
    → g.thread.freed ≡ true
    → g.thread.phase ≡ ended
destructor-joins calls m r f =
    let (b, i) = Reach-Inv (Orderly-destructor false calls m) r in i.joined_ended (i.freed_joined f)

-- Whether `stop` is among the actions.
abbrev pub calls_stop : List Action → Bool
calls_stop [] = false
calls_stop (stop ∷ rest) = true
calls_stop (a ∷ rest) = calls_stop rest

-- The actions done so far, by which the token is known.
record Told (actions : List Action) (g : Owned) : Type 0 where
  pub done : List Action
  pub split : actions ≡ done ++ g.todo
  pub told : can_continue g.thread.continue ≡ not (calls_stop done)

calls_stop-append :
    (done : List Action) (a : Action)
    → calls_stop (done ++ a ∷ []) ≡ calls_stop done || calls_stop (a ∷ [])
calls_stop-append [] a = refl
calls_stop-append (stop ∷ done) a = refl
calls_stop-append (wait ∷ done) a = calls_stop-append done a
calls_stop-append (join ∷ done) a = calls_stop-append done a
calls_stop-append (detach ∷ done) a = calls_stop-append done a
calls_stop-append (join_if_joinable ∷ done) a = calls_stop-append done a
calls_stop-append (release ∷ done) a = calls_stop-append done a

-- An action other than `stop` leaves the token.
act-told :
    (a : Action) (t u : FixedIthread) (b : Bool)
    → act a t ≡ some (returns u)
    → can_continue t.continue ≡ not b
    → can_continue u.continue ≡ not (b || calls_stop (a ∷ []))
unfolding act can_continue stop_tokens reset try_wait
act-told stop t u b e k = ground arith
act-told wait t u b e k = ground arith
act-told join t u b e k = ground arith
act-told detach t u b e k = ground arith
act-told join_if_joinable t u b e k = ground arith
act-told release t u b e k = ground arith

advance-continue : (t u : FixedIthread) → advance t ≡ some (returns u) → u.continue ≡ t.continue
unfolding advance notify
advance-continue t u e = ground arith

Step-Told : {actions : List Action} {g h : Owned} → Told actions g → Step g h → Told actions h
Step-Told {g} k (owner a rest t e f q) = rw q (record {
  done = k.done ++ a ∷ [];
  split = k.split ∙ ap (◌++◌ k.done) e ∙ sym (append_assoc k.done (a ∷ []) rest);
  told =
      act-told a g.thread t (calls_stop k.done) f k.told
      ∙ ap not (sym (calls_stop-append k.done a));
})
Step-Told {g} k (worker t e q) = rw q (record {
  done = k.done;
  split = k.split;
  told = ap can_continue (advance-continue g.thread t e) ∙ k.told;
})

Reach-Told : {actions : List Action} {g : Owned} → Reach (started_with actions) g → Told actions g
unfolding can_continue try_wait
Reach-Told here = record { done = []; split = refl; told = refl }
Reach-Told (next r st) = Step-Told (Reach-Told r) st

-- At any time, the actions of an owner are what it has done and what it has yet to do, and its
-- thread's token says that it may continue exactly if no `stop` is among the former.
pub token_tells :
    (actions : List Action) {g : Owned}
    → Reach (started_with actions) g
    → (done : List Action) × (actions ≡ done ++ g.todo)
      × (can_continue g.thread.continue ≡ not (calls_stop done))
token_tells actions r = let k = Reach-Told r in (k.done, k.split, k.told)
