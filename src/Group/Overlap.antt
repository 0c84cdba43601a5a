-- ===== src/Group/Overlap.antt =====
-- How a group of tasks runs when the tasks overlap: the groups of `partition_range_pos` and
-- `partition_range` of include/daw/fs/impl/algorithms_impl.h, as in Group, but a worker takes a task, does
-- what it does to memory in several steps, between which others go on, and then notifies. A scheduler
-- that is stopped drops the tasks that it is given and those that its workers take.
pub mod Counting
pub mod Waiting
pub mod Returning
use function_stream.Base.{◌≡◌, Bool, true, false, List, [], ◌∷◌, ◌++◌, returns}
use function_stream.Latch.{FixedCntSem, fixed_cnt_sem, add_notifier, notify}

-- A task that a worker has taken: what it has done, what it has yet to do, and whether its scope guard
-- has notified.
pub record Begun (T A : Type 0) : Type 0 where
  pub task : T
  pub past : List A
  pub rest : List A
  pub notified : Bool

-- The group; `begun` keeps the tasks that have ended. `log` has what was done to memory.
pub record Overlapping (T A S : Type 0) : Type 0 where
  pub todo : List T
  pub queued : List T
  pub dropped : List T
  pub begun : List (Begun T A)
  pub sem : FixedCntSem
  pub scoped : Bool
  pub log : List A
  pub memory : S

-- `auto sem = shared_cnt_sem( 1 ); on_scope_exit( sem.notify( ) );`
abbrev pub overlapping_group : {T A S : Type 0} → List T → S → Overlapping T A S
overlapping_group tasks s = record {
  todo = tasks;
  queued = [];
  dropped = [];
  begun = [];
  sem = fixed_cnt_sem 1;
  scoped = true;
  log = [];
  memory = s;
}

-- `actions t` is what task `t` does to memory, each a step that is not interrupted, such as a write or
-- what is done under a lock. `stays` says that the scheduler is not stopped. A task that is refused
-- ends the program.
module _ {T A S : Type 0} (actions : T → List A) (perform : A → S → S) (stays : Bool) where
  -- One step of the scheduling thread or of a worker.
  pub data Step (o p : Overlapping T A S) : Type 0 where
    -- `schedule_task( sem, task, ts )`, whose task constructor adds a notifier to the semaphore
    schedule :
        (t : T) (rest : List T)
        → o.todo ≡ t ∷ rest
        → p ≡ record o { todo = rest; queued = o.queued ++ t ∷ []; sem = add_notifier o.sem }
        → Step o p
    -- the same on a stopped scheduler: `send_task` returns true
    schedule_stopped :
        (t : T) (rest : List T)
        → stays ≡ false
        → o.todo ≡ t ∷ rest
        → p ≡ record o { todo = rest; dropped = t ∷ o.dropped; sem = add_notifier o.sem }
        → Step o p
    -- the scope guard, when the loop is over
    leave :
        (s : FixedCntSem)
        → o.todo ≡ []
        → o.scoped ≡ true
        → notify o.sem ≡ returns s
        → p ≡ record o { scoped = false; sem = s }
        → Step o p
    -- a worker takes any queued task
    takes :
        (before after : List T) (t : T)
        → o.queued ≡ before ++ t ∷ after
        → p ≡ record o {
          queued = before ++ after;
          begun =
              o.begun ++ record { task = t; past = []; rest = actions t; notified = false } ∷ [];
        }
        → Step o p
    -- the same on a stopped scheduler: `run_task` returns
    takes_stopped :
        (before after : List T) (t : T)
        → stays ≡ false
        → o.queued ≡ before ++ t ∷ after
        → p ≡ record o { queued = before ++ after; dropped = t ∷ o.dropped }
        → Step o p
    -- a task does the next thing that it has to do
    acts :
        (before after : List (Begun T A)) (b : Begun T A) (a : A) (rest : List A)
        → o.begun ≡ before ++ b ∷ after
        → b.rest ≡ a ∷ rest
        → p ≡ record o {
          begun = before ++ record b { past = b.past ++ a ∷ []; rest = rest } ∷ after;
          log = o.log ++ a ∷ [];
          memory = perform a o.memory;
        }
        → Step o p
    -- the scope guard of `fixed_task_t::execute`
    notifies :
        (before after : List (Begun T A)) (b : Begun T A) (s : FixedCntSem)
        → o.begun ≡ before ++ b ∷ after
        → b.rest ≡ []
        → b.notified ≡ false
        → notify o.sem ≡ returns s
        → p ≡ record o { begun = before ++ record b { notified = true } ∷ after; sem = s }
        → Step o p

  -- The groups that steps lead to.
  pub data Reach (start : Overlapping T A S) : Overlapping T A S → Type 0 where
    here : Reach start start
    next : {o p : Overlapping T A S} → Reach start o → Step o p → Reach start p
