-- ===== src/LockedPtr.antt =====
-- include/daw/fs/impl/daw_locked_ptr.h: `lockable_ptr_t`, an owned pointer behind a mutex, and the
-- assignment between two of them as steps of two threads. A pointer stands for what it points to.
pub mod Crossing
pub mod Holding
use function_stream.Base.{
  Bool, true, false, Option, none, some, if◌then◌else◌, ◌≡◌, Outcome, returns, faults, deref,
}

pub record LockablePtr (T : Type 0) : Type 0 where
  pub locked : Bool
  pub ptr : Option T

module _ {T : Type 0} where
  abbrev pub lockable_ptr : Option T → LockablePtr T
  lockable_ptr p = record { locked = false; ptr = p }

  -- `get`, which gives the lock to its caller; none is a thread that waits for it.
  unfoldable pub get : LockablePtr T → Option (LockablePtr T)
  get p = if p.locked then none else some (record p { locked = true })

  -- `locked_ptr_t::release`, by the thread that holds the lock.
  unfoldable pub unlock : LockablePtr T → LockablePtr T
  unlock p = record p { locked = false }

  -- `*locked`, which an empty pointer does not have.
  unfoldable pub dereference : LockablePtr T → Outcome T
  dereference p = deref p.ptr

  -- The members that lock for their own duration.
  unfoldable pub reset : LockablePtr T → Option (LockablePtr T)
  reset p = if p.locked then none else some (record p { ptr = none })

  unfoldable pub release : LockablePtr T → Option (Option T × LockablePtr T)
  release p = if p.locked then none else some (p.ptr, record p { ptr = none })

  unfoldable pub has_value : LockablePtr T → Option Bool
  has_value p = if p.locked then none else some (elim p.ptr [ none ↦ false | some v ↦ true ])

  -- `lockable_ptr_t( lockable_ptr_t && )`: the new pointer and what is left of the other.
  unfoldable pub move_construct : LockablePtr T → Option (LockablePtr T × LockablePtr T)
  unfolding release
  move_construct other = elim (release other) [
    | none ↦ none
    | some (v, rest) ↦ some (lockable_ptr v, rest)
  ]

-- Where a thread is in `operator=( lockable_ptr_t && )` of two objects: before it, with its own lock,
-- with what it took from the other, or behind it.
pub data Assignment (T : Type 0) : Type 0 where
  ready owning assigned : Assignment T
  taken : Option T → Assignment T

module _ {T : Type 0} where
  -- One step: the object that is assigned to, the other, and the thread. none is a thread that waits
  -- or has returned.
  unfoldable pub assign :
      LockablePtr T
      → LockablePtr T
      → Assignment T
      → Option (LockablePtr T × LockablePtr T × Assignment T)
  unfolding get release unlock
  assign self rhs ready = elim (get self) [ none ↦ none | some p ↦ some (p, rhs, owning) ]
  assign self rhs owning = elim (release rhs) [
    | none ↦ none
    | some (v, q) ↦ some (self, q, taken v)
  ]
  assign self rhs (taken v) = some (unlock (record self { ptr = v }), rhs, assigned)
  assign self rhs assigned = none

-- Two objects, and two threads: the left one runs `a = move( b )`, the right one `b = move( a )`.
pub record Crossed (T : Type 0) : Type 0 where
  pub a : LockablePtr T
  pub b : LockablePtr T
  pub left : Assignment T
  pub right : Assignment T

module _ {T : Type 0} where
  pub data Step (c d : Crossed T) : Type 0 where
    left_steps :
        (p q : LockablePtr T) (l : Assignment T)
        → assign c.a c.b c.left ≡ some (p, q, l)
        → d ≡ record c { a = p; b = q; left = l }
        → Step c d
    right_steps :
        (p q : LockablePtr T) (r : Assignment T)
        → assign c.b c.a c.right ≡ some (q, p, r)
        → d ≡ record c { a = p; b = q; right = r }
        → Step c d

  pub data Reach (start : Crossed T) : Crossed T → Type 0 where
    here : Reach start start
    next : {c d : Crossed T} → Reach start c → Step c d → Reach start d
