-- ===== src/Group/Waitable.antt =====
-- `create_waitable_task` and `invoke_tasks` of include/daw/fs/task_scheduler.h, over the two kinds of
-- groups.
use function_stream.Base.{
  suc, ◌≡◌, refl, ap, ◌∙◌, Bool, true, List, [], ◌∷◌, length, run, Permᴰ, if◌then◌else◌, Outcome,
  returns, throws, arith, ◌==◌, length-eq-zero, not, subst,
}
use function_stream.Latch.{can_pass}
use function_stream.Group.{Group, scoped_group, create_task_group, Reach}
use function_stream.Group.Order.{wait_finds_all}
use function_stream.Group.Preset.{preset_never_opens, preset-empty}

module _ {ℓ κ} {T : Type ℓ} {S : Type κ} where
  -- One task on a semaphore with a scope guard; `added` is whether it was accepted. When it was not, the
  -- guard notifies and the function throws.
  unfoldable pub create_waitable_task : Bool → T → S → Outcome (Group T S)
  create_waitable_task added task s =
      if not added then throws else returns (scoped_group (task ∷ []) s)

  -- The group that `invoke_tasks` waits for.
  unfoldable pub invoke_tasks : List T → S → Group T S
  invoke_tasks tasks s = create_task_group tasks s

module _ {ℓ} {T : Type ℓ} where
  perm-length : {xs ys : List T} → Permᴰ xs ys → length xs ≡ length ys
  perm-length Permᴰ.nil = refl
  perm-length (Permᴰ.cons e p) = ap suc (perm-length p)
  perm-length (Permᴰ.swap e f) = refl
  perm-length (Permᴰ.trans p q) = perm-length p ∙ perm-length q

  perm-one : {xs ys : List T} (t : T) → Permᴰ xs ys → ys ≡ t ∷ [] → xs ≡ t ∷ []
  perm-one t Permᴰ.nil e = e
  perm-one t (Permᴰ.cons {a} {b} {l₁} {l₂} e p) f =
      let none_left : l₁ ≡ [] = length-eq-zero l₁ (omega (arith, perm-length p, ap length f)) in
      cc none_left
  perm-one t (Permᴰ.swap e f) g = absurd (omega (arith, ap length g))
  perm-one t (Permᴰ.trans p q) e = perm-one t p (perm-one t q e)

module _ {ℓ κ} {T : Type ℓ} {S : Type κ} (body : T → S → S) where
  -- A waiter for a waitable task that was accepted passes only when the task has run, once.
  pub create_waitable_task-runs :
      (task : T) (s : S) {g h : Group T S}
      → create_waitable_task true task s ≡ returns g
      → Reach body g h
      → can_pass h.sem ≡ true
      → (h.finished ≡ task ∷ []) × (h.memory ≡ body task s)
  unfolding create_waitable_task
  create_waitable_task-runs task s {h = h} e r p =
      let (_, _, order, left) = wait_finds_all body (subst (λ k. Reach body k h) (started e) r) p in
      let once = perm-one task order refl in (once, left ∙ ap (λ l. run body l s) once)
    where
      started : {k g : Group T S} → returns k ≡ returns g → g ≡ k
      started e = cc

  -- `invoke_tasks` returns only if it was given no task: in whatever interleaving, the semaphore that
  -- it waits for is open exactly then.
  pub invoke_tasks-hangs :
      (tasks : List T) (s : S) {g : Group T S}
      → Reach body (invoke_tasks tasks s) g
      → can_pass g.sem ≡ (length tasks == 0)
  unfolding invoke_tasks can_pass
  invoke_tasks-hangs [] s r = rw (preset-empty body r) refl
  invoke_tasks-hangs (t ∷ tasks) s r = ground (arith, preset_never_opens body (omega arith) r)
