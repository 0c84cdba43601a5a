-- ===== src/LockedPtr/Holding.antt =====
-- include/daw/fs/impl/daw_locked_ptr.h: `locked_ptr_t` and `const_locked_ptr_t`, which hold the lock of a
-- `lockable_ptr_t`, and the calls of several threads on these.
use function_stream.Base.{
  ℕ, zero, suc, ◌+◌, ◌≡◌, refl, true, List, [], ◌∷◌, ◌++◌, get_elem?, modify, Option, none, some,
  Option-cases, if◌then◌else◌, Outcome, returns, faults, arith, inl, inr,
}
use function_stream.LockedPtr.{LockablePtr, lockable_ptr, get, unlock, reset, release}

-- What a `locked_ptr_t` or `const_locked_ptr_t` has: the lock, or the lock no longer, or it was destroyed.
-- They are not moved here.
pub data Holder : Type 0 where
  owning released destroyed : Holder

-- The object, and those made of it.
pub record Holding (T : Type 0) : Type 0 where
  pub object : LockablePtr T
  pub holders : List Holder

-- `destroys n` is the destructor of a holder, and `writes n v` an assignment to what `get( )` of a
-- `locked_ptr_t` gives, a reference to the `unique_ptr`. `resets` and `gives_up` are `reset` and
-- `release` of the object.
pub data Call (T : Type 0) : Type 0 where
  gets resets gives_up : Call T
  releases destroys : ℕ → Call T
  writes : ℕ → Option T → Call T

module _ {T : Type 0} where
  abbrev pub become : Holder → Holding T → ℕ → Holding T
  become x h n = record h { holders = modify h.holders n (λ _. x) }

  abbrev pub let_go : Holder → Holding T → ℕ → Holding T
  let_go x h n = record (become x h n) { object = unlock h.object }

  -- `release( )` is `m_lock.unlock( )`, which throws if the lock is not owned, in a function that is
  -- `noexcept`.
  unfoldable pub release_holder : Holding T → ℕ → Option Holder → Option (Outcome (Holding T))
  unfolding unlock
  release_holder h n (some owning) = some (returns (let_go released h n))
  release_holder h n (some released) = some faults
  release_holder h n (some destroyed) = none
  release_holder h n none = none

  unfoldable pub destroy_holder : Holding T → ℕ → Option Holder → Option (Outcome (Holding T))
  unfolding unlock
  destroy_holder h n (some owning) = some (returns (let_go destroyed h n))
  destroy_holder h n (some released) = some (returns (become destroyed h n))
  destroy_holder h n (some destroyed) = none
  destroy_holder h n none = none

  -- `locked_ptr_t::get( )` does not look at the lock.
  unfoldable pub write_holder : Option T → Holding T → Option Holder → Option (Outcome (Holding T))
  write_holder v h (some owning) =
      some (returns (record h { object = record h.object { ptr = v } }))
  write_holder v h (some released) =
      some (returns (record h { object = record h.object { ptr = v } }))
  write_holder v h (some destroyed) = none
  write_holder v h none = none

  abbrev with_object :
      List Holder → Holding T → Option (LockablePtr T) → Option (Outcome (Holding T))
  with_object new h none = none
  with_object new h (some p) = some (returns (record { object = p; holders = h.holders ++ new }))

  -- none is a call that waits for the lock, or of a holder that does not exist.
  unfoldable pub perform : Call T → Holding T → Option (Outcome (Holding T))
  unfolding get reset release release_holder destroy_holder write_holder
  perform gets h = with_object (owning ∷ []) h (get h.object)
  perform resets h = with_object [] h (reset h.object)
  perform gives_up h =
      with_object [] h (elim (release h.object) [ none ↦ none | some (v, p) ↦ some p ])
  perform (releases n) h = release_holder h n (get_elem? h.holders n)
  perform (destroys n) h = destroy_holder h n (get_elem? h.holders n)
  perform (writes n v) h = write_holder v h (get_elem? h.holders n)

  abbrev pub unheld : Option T → Holding T
  unheld p = record { object = lockable_ptr p; holders = [] }

  pub data Reach (start : Holding T) : Holding T → Type 0 where
    here : Reach start start
    next_call :
        {h k : Holding T} (c : Call T)
        → Reach start h
        → perform c h ≡ some (returns k)
        → Reach start k

-- How many own the lock.
abbrev pub owns : Holder → ℕ
owns owning = 1
owns released = 0
owns destroyed = 0

abbrev pub owners : List Holder → ℕ
owners [] = 0
owners (x ∷ holders) = owns x + owners holders

owners-append :
    (hs : List Holder) (x : Holder) → owners (hs ++ x ∷ []) ≡ owners hs + owners (x ∷ [])
owners-append [] x = omega arith
owners-append (h ∷ hs) x = omega (arith, owners-append hs x)

append_nothing : (hs : List Holder) → owners (hs ++ []) ≡ owners hs
append_nothing [] = refl
append_nothing (h ∷ hs) = omega (arith, append_nothing hs)

owners-modify :
    (hs : List Holder) (n : ℕ) (x y : Holder)
    → get_elem? hs n ≡ some x
    → owners hs + owns y ≡ owners (modify hs n (λ _. y)) + owns x
owners-modify [] n x y e = cc
owners-modify (h ∷ hs) zero x y e = let same : owns h ≡ owns x = cc in omega (arith, same)
owners-modify (h ∷ hs) (suc n) x y e = omega (arith, owners-modify hs n x y e)

-- What a call leaves of a pointer that is held: only what is written through a holder changes it.
abbrev pub written : {T : Type 0} → Call T → Option T → Option T
written gets p = p
written resets p = p
written gives_up p = p
written (releases n) p = p
written (destroys n) p = p
written (writes n v) p = v

module _ {T : Type 0} where
  -- The lock is held by one, or by none.
  abbrev Exclusive : Holding T → Type 0
  Exclusive h = owners h.holders ≡ (if h.object.locked then 1 else 0)

  let_go-Exclusive :
      (h : Holding T) (n : ℕ) (x : Holder)
      → Exclusive h
      → get_elem? h.holders n ≡ some owning
      → owns x ≡ 0
      → Exclusive (let_go x h n)
  unfolding unlock
  let_go-Exclusive h n x e g z = ground (arith, owners-modify h.holders n owning x g)

  perform-Exclusive :
      (c : Call T) (h : Holding T) {k : Holding T}
      → Exclusive h
      → perform c h ≡ some (returns k)
      → Exclusive k
  unfolding perform get reset release release_holder destroy_holder write_holder
  perform-Exclusive gets h x e = ground (arith, owners-append h.holders owning)
  perform-Exclusive resets h x e = ground (arith, append_nothing h.holders)
  perform-Exclusive gives_up h x e = ground (arith, append_nothing h.holders)
  perform-Exclusive (releases n) h x e = elim (Option-cases (get_elem? h.holders n)) [
    | inl past ↦ absurd (ground arith)
    | inr (owning, f) ↦ ground (arith, let_go-Exclusive h n released x f refl)
    | inr (released, f) ↦ absurd (ground arith)
    | inr (destroyed, f) ↦ absurd (ground arith)
  ]
  perform-Exclusive (destroys n) h x e = elim (Option-cases (get_elem? h.holders n)) [
    | inl past ↦ absurd (ground arith)
    | inr (owning, f) ↦ ground (arith, let_go-Exclusive h n destroyed x f refl)
    | inr (released, f) ↦ ground (arith, owners-modify h.holders n released destroyed f)
    | inr (destroyed, f) ↦ absurd (ground arith)
  ]
  perform-Exclusive (writes n v) h x e = elim (Option-cases (get_elem? h.holders n)) [
    | inl past ↦ absurd (ground arith)
    | inr (owning, f) ↦ ground arith
    | inr (released, f) ↦ ground arith
    | inr (destroyed, f) ↦ absurd (ground arith)
  ]

  Reach-Exclusive : (p : Option T) {h : Holding T} → Reach (unheld p) h → Exclusive h
  Reach-Exclusive p here = refl
  Reach-Exclusive p (next_call {h} c r e) = perform-Exclusive c h (Reach-Exclusive p r) e

  perform-written :
      (c : Call T) (h : Holding T) {k : Holding T}
      → h.object.locked ≡ true
      → perform c h ≡ some (returns k)
      → k.object.ptr ≡ written c h.object.ptr
  unfolding perform get reset release release_holder destroy_holder write_holder unlock
  perform-written gets h l e = ground arith
  perform-written resets h l e = ground arith
  perform-written gives_up h l e = ground arith
  perform-written (releases n) h l e = elim (Option-cases (get_elem? h.holders n)) [
    | inl past ↦ ground arith
    | inr (owning, f) ↦ ground arith
    | inr (released, f) ↦ ground arith
    | inr (destroyed, f) ↦ ground arith
  ]
  perform-written (destroys n) h l e = elim (Option-cases (get_elem? h.holders n)) [
    | inl past ↦ ground arith
    | inr (owning, f) ↦ ground arith
    | inr (released, f) ↦ ground arith
    | inr (destroyed, f) ↦ ground arith
  ]
  perform-written (writes n v) h l e = elim (Option-cases (get_elem? h.holders n)) [
    | inl past ↦ ground arith
    | inr (owning, f) ↦ ground arith
    | inr (released, f) ↦ ground arith
    | inr (destroyed, f) ↦ ground arith
  ]

  -- Whatever threads do with a pointer and those that hold it, which are not moved: its lock has one
  -- owner while it is locked and none otherwise, before and after any call; and while it is locked, a
  -- call changes the pointer only by a write through one of those made of it, which may be one that has
  -- released the lock: `reset`, `release` and `get` of the object wait.
  pub held_exclusively :
      (p : Option T) (c : Call T) {h k : Holding T}
      → Reach (unheld p) h
      → h.object.locked ≡ true
      → perform c h ≡ some (returns k)
      → (owners h.holders ≡ 1)
        × (owners k.holders ≡ (if k.object.locked then 1 else 0))
        × (k.object.ptr ≡ written c h.object.ptr)
  held_exclusively p c {h} {k} r l e = (
    ground (arith, Reach-Exclusive p r),
    perform-Exclusive c h (Reach-Exclusive p r) e,
    perform-written c h l e,
  )
