-- ===== src/Future/Handles/Lifetime.antt =====
-- Who keeps the shared state of a future alive.
use function_stream.Base.{
  ◌+◌, ◌==◌, ◌≡◌, ◌≢◌, refl, true, false, none, some, if◌then◌else◌, Outcome, returns, throws,
  faults, arith, inl, inr, Option-cases,
}
use function_stream.Latch.{notify}
use function_stream.Future.{MemberData, Expected, set_expected, next, fork, pass_next}
use function_stream.Future.Handles.{
  Shared, Call, copies, drops, locks, continues, forks, sets, use_count, destroy_unowned, expired,
  lock, with_content, perform, Reach, here, next_call,
}

module _ {R : Type 0} where
  set_expected-has_next :
      (v : Expected R) (d : MemberData R) {e : MemberData R}
      → set_expected v d ≡ returns e
      → e.has_next ≡ d.has_next
  unfolding set_expected pass_next notify
  set_expected-has_next v d h = ground arith

  next-has_next : (d : MemberData R) {e : MemberData R} → next d ≡ returns e → e.has_next ≡ true
  unfolding next pass_next notify
  next-has_next d h = ground arith

  with_content-returns :
      (s : Shared R) (f : MemberData R → Outcome (MemberData R)) {t : Shared R}
      → with_content s f ≡ returns t
      → (d e : MemberData R) × (s.content ≡ some d)
        × (f d ≡ returns e)
        × (t.content ≡ some e)
        × (t.clients ≡ s.clients)
  with_content-returns s f {t} h = elim (Option-cases s.content) [
    | inl gone ↦ absurd (ground arith)
    | inr (d, g) ↦ changed d g (f d) refl
  ]
    where
      changed :
          (d : MemberData R)
          → s.content ≡ some d
          → (o : Outcome (MemberData R)) → f d ≡ o
          → (d e : MemberData R) × (s.content ≡ some d)
            × (f d ≡ returns e)
            × (t.content ≡ some e)
            × (t.clients ≡ s.clients)
      changed d g (returns e) k = (d, e, g, k, ground arith, ground arith)
      changed d g throws k = absurd (ground arith)
      changed d g faults k = absurd (ground arith)

  fork-has_next : (d : MemberData R) {e : MemberData R} → fork d ≡ returns e → e.has_next ≡ true
  unfolding fork pass_next notify
  fork-has_next d h = ground arith

  -- A handle of the future locks.
  abbrev CanLock : Shared R → Type 0
  CanLock s =
      (d : MemberData R) × (s.content ≡ some d)
      × (expired s ≡ false)
      × (lock s ≡ some (record s { clients = s.clients + 1 }))

  -- The state exists, and holds a copy of its future.
  abbrev HoldsItself : Shared R → Type 0
  HoldsItself s = (d : MemberData R) × (s.content ≡ some d) × (d.has_next ≡ true)

  HoldsItself-CanLock : (s : Shared R) → HoldsItself s → CanLock s
  unfolding expired lock use_count
  HoldsItself-CanLock s (d, e, n) = (d, e, ground arith, ground arith)

  set-HoldsItself :
      (s : Shared R) (v : Expected R) {t : Shared R}
      → HoldsItself s
      → (if s.clients == 0 then none else some (with_content s (set_expected v))) ≡ some (returns t)
      → HoldsItself t
  set-HoldsItself s v {t} (d, e, n) h =
      let (d', e', f, g, k, c) = with_content-returns s (set_expected v) {t = t} (ground arith) in
      (e', k, ground (arith, set_expected-has_next v d' g))

  perform-HoldsItself :
      (c : Call R) (s : Shared R) {t : Shared R}
      → HoldsItself s
      → perform c s ≡ some (returns t)
      → HoldsItself t
  unfolding perform lock expired destroy_unowned use_count
  perform-HoldsItself copies s (d, e, n) h = (d, ground arith, n)
  perform-HoldsItself drops s (d, e, n) h = (d, ground arith, n)
  perform-HoldsItself locks s (d, e, n) h = (d, ground arith, n)
  perform-HoldsItself continues s {t} (d, e, n) h =
      let (d', e', f, g, k, c) = with_content-returns s next {t = t} (ground arith) in
      (e', k, next-has_next d' g)
  perform-HoldsItself forks s {t} (d, e, n) h =
      let (d', e', f, g, k, c) = with_content-returns s fork {t = t} (ground arith) in
      (e', k, fork-has_next d' g)
  perform-HoldsItself (sets v) s h k = set-HoldsItself s v h k

  Reach-HoldsItself : {s t : Shared R} → HoldsItself s → Reach s t → HoldsItself t
  Reach-HoldsItself h here = h
  Reach-HoldsItself h (next_call {s} c r k) = perform-HoldsItself c s (Reach-HoldsItself h r) k

  -- Once a future has been continued, its state is never destroyed, and no handle of it ever expires,
  -- even when all copies of the future have been dropped: the continuation that the state holds holds
  -- the state.
  pub continued_never_expires :
      {s t : Shared R} (d : MemberData R)
      → s.content ≡ some d
      → d.has_next ≡ true
      → Reach s t
      → (expired t ≡ false) × (t.content ≢ none)
  continued_never_expires {t} d e n r =
      let (d', e', x, _) = HoldsItself-CanLock t (Reach-HoldsItself (d, e, n) r) in (x, λ gone. cc)
