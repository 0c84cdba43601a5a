-- ===== src/Group/Preset.antt =====
-- The overload of `partition_range` that presets its semaphore to the number of tasks, and
-- `create_task_group` of include/daw/fs/task_scheduler.h, which does the same.
use function_stream.Base.{
  ◌≤◌, ◌≡◌, refl, ap, false, List, [], ◌∷◌, length, length-append, arith, ◌<◌,
}
use function_stream.Latch.{can_pass}
use function_stream.Group.{Group, preset_group, Reach, here, next, schedule, leave, execute}
use function_stream.Group.Order.{Reach-owed}

-- Every task is counted twice, by the preset value and by its constructor, and notifies once: the
-- semaphore of a group that is not empty never opens, in any state that the group reaches.
pub preset_never_opens {ℓ κ} :
    {T : Type ℓ} {S : Type κ} (body : T → S → S) {tasks : List T} {s : S} {g : Group T S}
    → 0 < length tasks
    → Reach body (preset_group tasks s) g
    → (length tasks ≤ g.sem.value) × (can_pass g.sem ≡ false)
unfolding can_pass
preset_never_opens body {tasks} {g} some_task r =
    ground (arith, Reach-owed body (length tasks) (omega arith) r)

-- A preset group without tasks takes no step.
pub preset-empty {ℓ κ} :
    {T : Type ℓ} {S : Type κ} (body : T → S → S) {s : S} {g : Group T S}
    → Reach body (preset_group [] s) g
    → g ≡ preset_group [] s
preset-empty body here = refl
preset-empty body (next r (schedule t rest e q)) = absurd (ground (arith, preset-empty body r))
preset-empty body (next r (leave s e f n q)) = absurd (ground (arith, preset-empty body r))
preset-empty body (next r (execute before after t s e n q)) =
    absurd (ground (arith, preset-empty body r, ap length e, length-append before (t ∷ after)))
