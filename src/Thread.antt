-- ===== src/Thread.antt =====
-- include/daw/fs/impl/ithread.h: threads with an interrupt token, and the life of a `fixed_ithread`
-- between its owner and the thread that it started, as an interleaving of their steps.
pub mod Lifetime
pub mod Ending
use function_stream.Base.{
  ◌≡◌, Bool, true, false, not, List, [], ◌∷◌, ◌++◌, Option, none, some, if◌then◌else◌, Outcome,
  returns, throws, faults,
}
use function_stream.Latch.{FixedCntSem, fixed_cnt_sem, reset, notify, can_pass, try_wait}

-- `m_condition`. A token is a pointer to it.
pub record InterruptTokenOwner : Type 0 where
  pub condition : FixedCntSem

abbrev pub interrupt_token_owner : InterruptTokenOwner
interrupt_token_owner = record { condition = fixed_cnt_sem 1 }

-- What a token of the owner answers.
unfoldable pub can_continue : InterruptTokenOwner → Bool
can_continue o = not (try_wait o.condition)

unfoldable pub stop_tokens : InterruptTokenOwner → InterruptTokenOwner
stop_tokens o = record { condition = reset o.condition 0 }

-- Where the thread of `make_thread` is: in its function, or between the two halves of the `notify` of
-- its scope guard, the count being decremented and the waiters not yet woken, or at its end.
pub data Phase : Type 0 where
  running waking ended : Phase

-- `joinable` is that of `m_thread`, `freed` says that the memory of the object was given back.
pub record FixedIthread : Type 0 where
  pub continue : InterruptTokenOwner
  pub sem : FixedCntSem
  pub joinable : Bool
  pub phase : Phase
  pub freed : Bool

abbrev pub fixed_ithread : FixedIthread
fixed_ithread = record {
  continue = interrupt_token_owner;
  sem = fixed_cnt_sem 1;
  joinable = true;
  phase = running;
  freed = false;
}

-- What an owner does with its thread. The last two are the end of the destructor, the test with the
-- join under it, and the destruction of the members.
pub data Action : Type 0 where
  stop wait join detach join_if_joinable release : Action

abbrev pub stop_and_wait : List Action
stop_and_wait = stop ∷ wait ∷ []

abbrev pub destructor : List Action
destructor = stop ∷ wait ∷ join_if_joinable ∷ release ∷ []

-- `m_thread.join( )` on a thread that can be joined.
abbrev pub join_thread : FixedIthread → Option (Outcome FixedIthread)
join_thread t = elim t.phase [ ended ↦ some (returns (record t { joinable = false })) | _ ↦ none ]

-- none is an owner that waits.
unfoldable pub act : Action → FixedIthread → Option (Outcome FixedIthread)
act stop t = some (returns (record t { continue = stop_tokens t.continue }))
act wait t = if can_pass t.sem then some (returns t) else none
act join t = if t.joinable then join_thread t else some throws
act detach t = some (if t.joinable then returns (record t { joinable = false }) else throws)
act join_if_joinable t = if t.joinable then join_thread t else some (returns t)
act release t = some (returns (record t { freed = true }))

-- The next step of the thread, if it has one.
unfoldable pub advance : FixedIthread → Option (Outcome FixedIthread)
advance t = elim t.phase [
  | running ↦ some (elim (notify t.sem) [
    | returns s ↦ returns (record t { sem = s; phase = waking })
    | throws ↦ throws
    | faults ↦ faults
  ])
  | waking ↦ some (returns (record t { phase = ended }))
  | ended ↦ none
]

-- An `ithread`, which owns a `fixed_ithread`: none is one that was made without a function or moved
-- from, on which each call fails its assertion, as does joining what cannot be joined.
abbrev pub Ithread : Type 0
Ithread = Option FixedIthread

unfoldable pub call : Action → Ithread → Option (Outcome FixedIthread)
call a none = some faults
call join (some t) = if t.joinable then act join t else some faults
call a (some t) = act a t

-- What `fixed_task_scheduler::stop` does with each of its threads, `clear( )` included.
abbrev pub stop_calls : Bool → List Action
stop_calls block_on_destruction =
    (if block_on_destruction then stop_and_wait else detach ∷ stop ∷ []) ++ destructor

-- The owner, with what it has yet to do, and its thread.
pub record Owned : Type 0 where
  pub todo : List Action
  pub thread : FixedIthread

abbrev pub started_with : List Action → Owned
started_with actions = record { todo = actions; thread = fixed_ithread }

-- One step of the owner or of the thread. A call that throws is none.
pub data Step (g h : Owned) : Type 0 where
  owner :
      (a : Action) (rest : List Action) (t : FixedIthread)
      → g.todo ≡ a ∷ rest
      → act a g.thread ≡ some (returns t)
      → h ≡ record { todo = rest; thread = t }
      → Step g h
  worker :
      (t : FixedIthread)
      → advance g.thread ≡ some (returns t)
      → h ≡ record g { thread = t }
      → Step g h

-- What steps lead to.
pub data Reach (start : Owned) : Owned → Type 0 where
  here : Reach start start
  next : {g h : Owned} → Reach start g → Step g h → Reach start h
