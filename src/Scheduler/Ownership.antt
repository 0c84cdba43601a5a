-- ===== src/Scheduler/Ownership.antt =====
-- Who keeps a `fixed_task_scheduler` alive: the handles of its users, `ts_handle_t` of
-- include/daw/fs/task_scheduler.h, and the worker threads of `add_queue` of src/task_scheduler.cpp, as
-- an interleaving of steps. Threads that have returned are not counted.
use function_stream.Base.{
  ℕ, ◌+◌, ◌-◌, ◌≤◌, ◌<◌, ◌≡◌, refl, Bool, true, false, Option, none, some, if◌then◌else◌, ◌==◌,
  arith,
}

-- `users` counts the `task_scheduler` objects outside of the workers, `waiting` the workers that have
-- not yet locked their handle, `holding` those that have, whose `self` lives until `task_runner`
-- returns.
pub record Owners : Type 0 where
  pub users : ℕ
  pub waiting : ℕ
  pub holding : ℕ
  pub continue : Bool
  pub destroyed : Bool

-- The object of `make_shared_ts( )`, started, with a worker that has a handle.
abbrev pub make_shared_ts : Owners
make_shared_ts = record { users = 1; waiting = 1; holding = 0; continue = true; destroyed = false }

-- The scheduler is destroyed with its last `shared_ptr`.
abbrev pub release_one : Owners → Owners
release_one o = record o { destroyed = (o.users + o.holding) == 0 }

abbrev pub expired : Owners → Bool
expired o = o.destroyed

-- `auto self = wself.lock( );` of a worker, which returns at once if there is nothing to lock.
unfoldable pub lock : Owners → Option Owners
lock o =
    if o.waiting == 0
    then none
    else if expired o
    then some (record o { waiting = o.waiting - 1 })
    else some (record o { waiting = o.waiting - 1; holding = o.holding + 1 })

-- `task_runner` returns, which it does only when the scheduler is no longer started, and `self` dies.
unfoldable pub return_runner : Owners → Option Owners
return_runner o =
    if o.holding == 0
    then none
    else if o.continue
    then none
    else some (release_one (record o { holding = o.holding - 1 }))

-- What users do, as long as they have a handle: copy it, give one up, add a worker, or stop the
-- scheduler.
unfoldable pub copy_handle : Owners → Option Owners
copy_handle o = if o.users == 0 then none else some (record o { users = o.users + 1 })

unfoldable pub drop_handle : Owners → Option Owners
drop_handle o = if o.users == 0 then none else some (release_one (record o { users = o.users - 1 }))

-- `add_queue`, whose new thread has a handle.
unfoldable pub add_worker : Owners → Option Owners
add_worker o = if o.users == 0 then none else some (record o { waiting = o.waiting + 1 })

unfoldable pub stop_owned : Owners → Option Owners
stop_owned o = if o.users == 0 then none else some (record o { continue = false })

pub data Step (o p : Owners) : Type 0 where
  locks : lock o ≡ some p → Step o p
  returns_runner : return_runner o ≡ some p → Step o p
  copies : copy_handle o ≡ some p → Step o p
  drops : drop_handle o ≡ some p → Step o p
  stops : stop_owned o ≡ some p → Step o p
  adds : add_worker o ≡ some p → Step o p

pub data Reach (start : Owners) : Owners → Type 0 where
  here : Reach start start
  next : {o p : Owners} → Reach start o → Step o p → Reach start p

-- Destroyed means unowned, and the other way round.
abbrev pub Inv : Owners → Type 0
Inv o = o.destroyed ≡ ((o.users + o.holding) == 0)

Step-Inv : {o p : Owners} → Inv o → Step o p → Inv p
unfolding lock return_runner copy_handle drop_handle stop_owned add_worker
Step-Inv {o} {p} i (locks e) = ground arith
Step-Inv {o} {p} i (returns_runner e) = ground arith
Step-Inv {o} {p} i (copies e) = ground arith
Step-Inv {o} {p} i (drops e) = ground arith
Step-Inv {o} {p} i (stops e) = ground arith
Step-Inv {o} {p} i (adds e) = ground arith

-- The scheduler is destroyed exactly when neither a user nor a worker holds it: a worker never works
-- for a scheduler that is gone.
pub destroyed-unowned :
    {o : Owners} → Reach make_shared_ts o → o.destroyed ≡ ((o.users + o.holding) == 0)
destroyed-unowned here = refl
destroyed-unowned (next r st) = Step-Inv (destroyed-unowned r) st

Step-holding :
    {o p : Owners} → Step o p → p.continue ≡ true → (o.continue ≡ true) × (o.holding ≤ p.holding)
unfolding lock return_runner copy_handle drop_handle stop_owned add_worker
Step-holding {o} {p} (locks e) c = ground arith
Step-holding {o} {p} (returns_runner e) c = ground arith
Step-holding {o} {p} (copies e) c = ground arith
Step-holding {o} {p} (drops e) c = ground arith
Step-holding {o} {p} (stops e) c = ground arith
Step-holding {o} {p} (adds e) c = ground arith

Reach-holding :
    {o p : Owners} → Reach o p → p.continue ≡ true → (o.continue ≡ true) × (o.holding ≤ p.holding)
Reach-holding here c = (c, omega arith)
Reach-holding (next r st) c =
    let (d, h) = Step-holding st c in let (e, k) = Reach-holding r d in (e, omega (arith, h, k))

Reach-trans : {o p q : Owners} → Reach o p → Reach p q → Reach o q
Reach-trans r here = r
Reach-trans r (next q st) = next (Reach-trans r q) st

-- From the moment at which a worker has locked its handle, and as long as the scheduler is started, it
-- is not destroyed, even if every user has given up their handles, and a worker holds it still.
pub worker_keeps_alive :
    {o p : Owners}
    → Reach make_shared_ts o
    → 0 < o.holding
    → Reach o p
    → p.continue ≡ true
    → (0 < p.holding) × (p.destroyed ≡ false)
worker_keeps_alive r h s c =
    let (_, k) = Reach-holding s c in
    (omega (arith, k), ground (arith, k, destroyed-unowned (Reach-trans r s)))
