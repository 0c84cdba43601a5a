-- ===== src/Group.antt =====
-- How a group of tasks runs: `partition_range_pos` and `partition_range` of
-- include/daw/fs/impl/algorithms_impl.h over `schedule_task` of include/daw/fs/task_scheduler.h,
-- with workers that run the queued tasks one at a time in any order, as an interleaving of steps.
-- `queued` holds the tasks of this group that stand in some queue of the scheduler. A task does one thing
-- to memory, such as to write its result, and the scheduler is not stopped and accepts the tasks;
-- Group/Overlap is without these conditions.
pub mod Order
pub mod Progress
pub mod Preset
pub mod Waitable
pub mod Refinement
pub mod Overlap
use function_stream.Base.{ℕ, ◌+◌, ◌≡◌, Bool, true, false, List, [], ◌∷◌, ◌++◌, length, returns}
use function_stream.Latch.{FixedCntSem, fixed_cnt_sem, add_notifier, notify}

-- The group, `todo` being what the scheduling loop has yet to add, `scoped` whether the scope guard
-- that notifies at the end of the function is pending, `memory` what the tasks work on.
pub record Group {ℓ κ} (T : Type ℓ) (S : Type κ) : Type (ℓ ⊔ κ) where
  pub todo : List T
  pub queued : List T
  pub finished : List T
  pub sem : FixedCntSem
  pub scoped : Bool
  pub memory : S

module _ {ℓ κ} {T : Type ℓ} {S : Type κ} where
  -- `auto sem = shared_cnt_sem( 1 ); on_scope_exit( sem.notify( ) );`
  abbrev pub scoped_group : List T → S → Group T S
  scoped_group tasks s = record {
    todo = tasks;
    queued = [];
    finished = [];
    sem = fixed_cnt_sem 1;
    scoped = true;
    memory = s;
  }

  -- `auto sem = daw::shared_cnt_sem( ranges.size( ) );` and no scope guard.
  abbrev pub preset_group : List T → S → Group T S
  preset_group tasks s = record {
    todo = tasks;
    queued = [];
    finished = [];
    sem = fixed_cnt_sem (length tasks);
    scoped = false;
    memory = s;
  }

module _ {ℓ κ} {T : Type ℓ} {S : Type κ} where
  -- `create_task_group`, whose tasks are all accepted.
  abbrev pub create_task_group : List T → S → Group T S
  create_task_group tasks s = preset_group tasks s

module _ {ℓ κ} {T : Type ℓ} {S : Type κ} (body : T → S → S) where
  -- One atomic step of the scheduling thread or of a worker.
  pub data Step (g h : Group T S) : Type (ℓ ⊔ κ) where
    -- `schedule_task( sem, task, ts )`, whose task constructor adds a notifier to the semaphore
    schedule :
        (t : T) (rest : List T)
        → g.todo ≡ t ∷ rest
        → h ≡ record g { todo = rest; queued = g.queued ++ t ∷ []; sem = add_notifier g.sem }
        → Step g h
    -- the scope guard, when the loop is over
    leave :
        (s : FixedCntSem)
        → g.todo ≡ []
        → g.scoped ≡ true
        → notify g.sem ≡ returns s
        → h ≡ record g { scoped = false; sem = s }
        → Step g h
    -- a worker takes any queued task, runs it and notifies
    execute :
        (before after : List T) (t : T) (s : FixedCntSem)
        → g.queued ≡ before ++ t ∷ after
        → notify g.sem ≡ returns s
        → h ≡ record g {
          queued = before ++ after;
          finished = g.finished ++ t ∷ [];
          sem = s;
          memory = body t g.memory;
        }
        → Step g h

  -- The groups that steps lead to.
  pub data Reach (start : Group T S) : Group T S → Type (ℓ ⊔ κ) where
    here : Reach start start
    next : {g h : Group T S} → Reach start g → Step g h → Reach start h
