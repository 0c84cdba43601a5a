-- ===== src/Future/Handles.antt =====
-- `get_handle` of include/daw/fs/impl/future_result_impl.h and of include/daw/fs/future_result.h: weak
-- pointers to the shared state of a future, and what keeps that state alive.
pub mod Lifetime
use function_stream.Base.{
  ℕ, ◌+◌, ◌-◌, ◌==◌, ◌≡◌, Bool, Option, none, some, if◌then◌else◌, Outcome, returns, faults, ◌>>=◌,
}
use function_stream.Future.{MemberData, Expected, fresh, set_expected, next, fork}

-- The shared state, none after its destruction, and the copies of the future that users and tasks hold.
pub record Shared (R : Type 0) : Type 0 where
  pub clients : ℕ
  pub content : Option (MemberData R)

-- A call of a copy of the future, or, for `locks`, of a handle.
pub data Call (R : Type 0) : Type 0 where
  copies drops locks continues forks : Call R
  sets : Expected R → Call R

module _ {R : Type 0} where
  -- The continuation that `next` or `fork` stores in the state holds a copy of the future, `self = *this`.
  abbrev pub held_by_itself : Option (MemberData R) → ℕ
  held_by_itself none = 0
  held_by_itself (some d) = if d.has_next then 1 else 0

  -- `use_count` of the `shared_ptr`.
  unfoldable pub use_count : Shared R → ℕ
  use_count s = s.clients + held_by_itself s.content

  unfoldable pub make_shared : Shared R
  make_shared = record { clients = 1; content = some fresh }

  -- The state is destroyed with its last owner.
  unfoldable pub destroy_unowned : Shared R → Shared R
  unfolding use_count
  destroy_unowned s = if use_count s == 0 then record s { content = none } else s

  -- `handle_t::expired`.
  unfoldable pub expired : Shared R → Bool
  unfolding use_count
  expired s = use_count s == 0

  -- `handle_t::lock`: one more copy of the future, if there is still an owner.
  unfoldable pub lock : Shared R → Option (Shared R)
  unfolding expired
  lock s = if expired s then none else some (record s { clients = s.clients + 1 })

  -- The `handle_t` of `future_result_t` and of `future_result_t<void>` go around that.
  unfoldable pub future_expired : Shared R → Bool
  unfolding expired
  future_expired s = expired s

  unfoldable pub future_lock : Shared R → Option (Shared R)
  unfolding lock
  future_lock s = lock s

  unfoldable pub void_expired : Shared R → Bool
  unfolding expired
  void_expired s = expired s

  unfoldable pub void_lock : Shared R → Option (Shared R)
  unfolding lock
  void_lock s = lock s

  abbrev pub with_content : Shared R → (MemberData R → Outcome (MemberData R)) → Outcome (Shared R)
  with_content s f = elim s.content [
    | none ↦ faults
    | some d ↦ (f d >>= λ d'. returns (record s { content = some d' }))
  ]

  -- none is a call that nobody can make: each needs a copy of the future, but for `lock`, which needs
  -- only a handle, and does nothing if that is expired.
  unfoldable pub perform : Call R → Shared R → Option (Outcome (Shared R))
  unfolding lock destroy_unowned set_expected next fork
  perform locks s = some (returns (elim (lock s) [ none ↦ s | some t ↦ t ]))
  perform copies s =
      if s.clients == 0 then none else some (returns (record s { clients = s.clients + 1 }))
  perform drops s =
      if s.clients == 0
      then none
      else some (returns (destroy_unowned (record s { clients = s.clients - 1 })))
  perform continues s = if s.clients == 0 then none else some (with_content s next)
  perform forks s = if s.clients == 0 then none else some (with_content s fork)
  perform (sets v) s = if s.clients == 0 then none else some (with_content s (set_expected v))

  pub data Reach (start : Shared R) : Shared R → Type 0 where
    here : Reach start start
    next_call :
        {s t : Shared R} (c : Call R)
        → Reach start s
        → perform c s ≡ some (returns t)
        → Reach start t
