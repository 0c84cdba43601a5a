-- ===== src/LockedPtr/Crossing.antt =====
-- include/daw/fs/impl/daw_locked_ptr.h: what one assignment does, and what two in opposite directions
-- can come to.
use function_stream.Base.{◌≡◌, refl, Bool, true, false, Option, none, some, ◌⊎◌, arith}
use function_stream.LockedPtr.{
  LockablePtr, lockable_ptr, get, release, unlock, Assignment, ready, owning, taken, assigned,
  assign, Crossed, Step, left_steps, right_steps, Reach, here, next,
}

module _ {T : Type 0} where
  -- A thread holds the lock of the object that it assigns to from its first step to its last.
  abbrev pub holds : Assignment T → Bool
  holds ready = false
  holds owning = true
  holds (taken v) = true
  holds assigned = false

  abbrev pub Inv : Crossed T → Type 0
  Inv c = (c.a.locked ≡ holds c.left) × (c.b.locked ≡ holds c.right)

  assign-holds :
      (self rhs p q : LockablePtr T) (t u : Assignment T)
      → assign self rhs t ≡ some (p, q, u)
      → self.locked ≡ holds t
      → (p.locked ≡ holds u) × (q.locked ≡ rhs.locked)
  unfolding assign get release unlock
  assign-holds self rhs p q ready u e h = ground arith
  assign-holds self rhs p q owning u e h = ground arith
  assign-holds self rhs p q (taken v) u e h = ground arith
  assign-holds self rhs p q assigned u e h = ground arith

  Step-Inv : {c d : Crossed T} → Inv c → Step c d → Inv d
  Step-Inv {c} i (left_steps p q l e f) =
      let (m, k) = assign-holds c.a c.b p q c.left l e i.0 in ground arith
  Step-Inv {c} i (right_steps p q r e f) =
      let (m, k) = assign-holds c.b c.a q p c.right r e i.1 in ground arith

  -- Both threads before their first step.
  abbrev pub crossing : Option T → Option T → Crossed T
  crossing v w = record { a = lockable_ptr v; b = lockable_ptr w; left = ready; right = ready }

  Reach-Inv : {v w : Option T} {c : Crossed T} → Reach (crossing v w) c → Inv c
  Reach-Inv here = (refl, refl)
  Reach-Inv (next r st) = Step-Inv (Reach-Inv r) st

  -- Neither thread can go on.
  abbrev pub IsStuck : Crossed T → Type 0
  IsStuck c = (assign c.a c.b c.left ≡ none) × (assign c.b c.a c.right ≡ none)

  stuck-cases :
      (c : Crossed T)
      → Inv c
      → IsStuck c
      → ((c.left ≡ owning) × (c.right ≡ owning)) ⊎ ((c.left ≡ assigned) × (c.right ≡ assigned))
  unfolding assign get release unlock
  stuck-cases c i s = ground arith

  -- For two assignments in opposite directions, whatever the two objects hold, there is an interleaving
  -- after which each thread waits for the lock that the other one holds; and when neither can go on,
  -- they are in this state or have both returned.
  pub crossing_deadlocks :
      (v w : Option T) {d : Crossed T}
      → Reach (crossing v w) d
      → IsStuck d
      → ((c : Crossed T) × Reach (crossing v w) c
          × IsStuck c
          × (c.left ≡ owning)
          × (c.right ≡ owning))
        × (((d.left ≡ owning) × (d.right ≡ owning)) ⊎ ((d.left ≡ assigned) × (d.right ≡ assigned)))
  unfolding assign get release
  crossing_deadlocks v w {d} r s = (
    (
      _,
      next (next here (left_steps _ _ _ refl refl)) (right_steps _ _ _ refl refl),
      (refl, refl),
      refl,
      refl,
    ),
    stuck-cases d (Reach-Inv r) s,
  )
