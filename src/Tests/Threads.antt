-- ===== src/Tests/Threads.antt =====
-- Threads that are waited for, stopped or detached, a wait that gives up, and two pointers that are
-- assigned to each other.
use function_stream.Base.{
  ℕ, leb, ◌+◌, ◌≡◌, refl, ◌⊎◌, inl, inr, true, false, List, [], ◌∷◌, ◌++◌, some, none, arith, ◌==◌,
  if◌then◌else◌, returns,
}
use function_stream.Thread.{
  Action, stop, wait, join_if_joinable, release, waking, ended, act, advance, destructor,
  stop_calls, Owned, started_with, owner, worker, Reach, here, next, interrupt_token_owner,
  fixed_ithread, stop_tokens,
}
use function_stream.Latch.{notify, can_pass, reset}
use function_stream.Thread.Lifetime.{destructor-joins}
use function_stream.Thread.Ending.{stop-frees_early, destructor-returns}
use function_stream.AtomicWait.{atomic_wait_for, timeout}
use function_stream.AtomicWait.Timeout.{atomic_wait_for-early}
use function_stream.LockedPtr.{Crossed, owning, assigned, assign, left_steps, right_steps}
use function_stream.LockedPtr
use function_stream.LockedPtr.Holding
use function_stream.LockedPtr.Holding.{Holding, owning, released, unheld, owners, held_exclusively}
use function_stream.LockedPtr.Crossing.{crossing, IsStuck, crossing_deadlocks}

-- `stop_and_wait` and the destructor, run to the end.
abbrev waited : List Action
waited = stop ∷ wait ∷ []

abbrev freed : Owned
freed = record {
  todo = [];
  thread = record {
    continue = record { condition = record { value = 0 } };
    sem = record { value = 0 };
    joinable = false;
    phase = ended;
    freed = true;
  };
}

to_freed : Reach (started_with (waited ++ destructor)) freed
unfolding act advance notify can_pass stop_tokens reset
to_freed =
    next
      (next
        (next
          (next
            (next
              (next (next (next here (owner stop _ _ refl refl refl)) (worker _ refl refl))
                (owner wait _ _ refl refl refl))
              (owner stop _ _ refl refl refl))
            (owner wait _ _ refl refl refl))
          (worker _ refl refl))
        (owner join_if_joinable _ _ refl refl refl))
      (owner release _ _ refl refl refl)

destructor-joins_example : freed.thread.phase ≡ ended
destructor-joins_example =
    destructor-joins waited (((λ e. cc), (λ e. cc)), (((λ e. cc), (λ e. cc)), tt)) to_freed refl

stop-frees_early_example :
    (h : Owned) × Reach
      (record {
        todo = stop_calls false;
        thread = record fixed_ithread { continue = interrupt_token_owner };
      })
      h
    × (h.thread.freed ≡ true)
    × (h.thread.phase ≡ waking)
stop-frees_early_example = stop-frees_early interrupt_token_owner

-- The owner has stopped the thread, which is still running.
abbrev stopped : Owned
stopped = record {
  todo = wait ∷ destructor;
  thread = record fixed_ithread { continue = record { condition = record { value = 0 } } };
}

to_stopped : Reach (started_with (waited ++ destructor)) stopped
unfolding act stop_tokens reset
to_stopped = next here (owner stop _ _ refl refl refl)

destructor-returns_example :
    (h : Owned) × Reach stopped h × (h.todo ≡ []) × (h.thread.phase ≡ ended)
destructor-returns_example = destructor-returns waited (inl refl, (inr refl, tt)) to_stopped

-- The object holds 5 up to load 17 and 6 from then on; a millisecond is asked for.
abbrev load : ℕ → ℕ
load k = if leb k 17 then 5 else 6

abbrev clock : ℕ → ℕ
clock j = 100 + j

atomic_wait_for-early_example :
    atomic_wait_for ◌==◌ 5 load 65 100 1000000 clock clock ≡ some (timeout, 17)
atomic_wait_for-early_example =
    atomic_wait_for-early ◌==◌ 5 load 100 1000000 clock clock (λ i h. ground arith) (omega arith)

-- Both assignments have returned, the left one first.
abbrev crossed : Crossed ℕ
crossed = record {
  a = record { locked = false; ptr = none };
  b = record { locked = false; ptr = some 2 };
  left = assigned;
  right = assigned;
}

to_crossed : LockedPtr.Reach (crossing (some 1) (some 2)) crossed
unfolding assign LockedPtr.get LockedPtr.release LockedPtr.unlock
to_crossed =
    LockedPtr.next
      (LockedPtr.next
        (LockedPtr.next
          (LockedPtr.next
            (LockedPtr.next (LockedPtr.next LockedPtr.here (left_steps _ _ _ refl refl))
              (left_steps _ _ _ refl refl))
            (left_steps _ _ _ refl refl))
          (right_steps _ _ _ refl refl))
        (right_steps _ _ _ refl refl))
      (right_steps _ _ _ refl refl)

crossed-IsStuck : IsStuck crossed
unfolding assign
crossed-IsStuck = (refl, refl)

crossing_deadlocks_example :
    ((c : Crossed ℕ) × LockedPtr.Reach (crossing (some 1) (some 2)) c
      × IsStuck c
      × (c.left ≡ owning)
      × (c.right ≡ owning))
    × (((crossed.left ≡ owning) × (crossed.right ≡ owning))
        ⊎ ((crossed.left ≡ assigned) × (crossed.right ≡ assigned)))
crossing_deadlocks_example = crossing_deadlocks (some 1) (some 2) to_crossed crossed-IsStuck

-- A pointer that one thread holds, and gives back.
abbrev held : Holding ℕ
held = record { object = record { locked = true; ptr = some 4 }; holders = owning ∷ [] }

abbrev given_back : Holding ℕ
given_back = record { object = record { locked = false; ptr = some 4 }; holders = released ∷ [] }

held_reached : Holding.Reach (unheld (some 4)) held
unfolding Holding.perform LockedPtr.get
held_reached = Holding.next_call Holding.gets Holding.here refl

gives_back : Holding.perform (Holding.releases 0) held ≡ some (returns given_back)
unfolding Holding.perform Holding.release_holder LockedPtr.unlock
gives_back = refl

held_exclusively_example :
    (owners held.holders ≡ 1)
    × (owners given_back.holders ≡ (if given_back.object.locked then 1 else 0))
    × (given_back.object.ptr ≡ held.object.ptr)
held_exclusively_example =
    held_exclusively (some 4) (Holding.releases 0) held_reached refl gives_back
