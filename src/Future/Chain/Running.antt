-- ===== src/Future/Chain/Running.antt =====
-- What the workers do to a chain of futures.
use function_stream.Base.{
  ℕ, zero, suc, ◌≤◌, ◌≡◌, ◌≢◌, ◌⊎◌, inl, inr, refl, ap, List, [], ◌∷◌, ◌++◌, length, Option, none,
  some, Outcome, returns, faults, All,
}
use function_stream.Future.Chain.{Cell, run_task, behind, in_a_row}
use function_stream.Future.Chain.Flow.{pending, IsIdle, Total, Flows, fill-Flows, Flows-cons}

module _ {T : Type 0} where
  pub run-idle : (n : ℕ) (cells : List (Cell T)) → All IsIdle cells → run_task n cells ≡ none
  unfolding run_task
  run-idle n [] i = refl
  run-idle zero (c ∷ cells) i = rw (i.0) refl
  run-idle (suc n) (c ∷ cells) i = ap (behind c) (run-idle n cells i.1)

  pub pending-IsIdle : (funcs : List (T → Outcome T)) → All IsIdle (pending none funcs)
  pending-IsIdle [] = (refl, tt)
  pending-IsIdle (func ∷ funcs) = (refl, pending-IsIdle funcs)

  -- Some worker of the futures has a task, and each that has one brings the value on.
  abbrev pub Runs : Outcome T → List (T → Outcome T) → ℕ → Option (Outcome (List (Cell T))) → Type 0
  Runs result todo more o =
      (cells : List (Cell T)) × (left : ℕ) × (o ≡ some (returns cells))
      × Flows result todo cells left
      × (left ≤ more)

  run-pending :
      (result : Outcome T) (todo : List (T → Outcome T)) (o : Outcome T)
      (funcs : List (T → Outcome T))
      → o ≢ faults
      → All Total funcs
      → in_a_row (in_a_row o funcs) todo ≡ result
      → Runs result todo (length funcs) (run_task 0 (pending (some o) funcs))
  unfolding run_task
  run-pending result todo o [] h k e =
      let (cells, left, f, g, m) = fill-Flows result todo o [] h k e in
      (cells, left, ap some f, g, m)
  run-pending result todo o (func ∷ funcs) h k e =
      let (cells, left, f, g, m) = fill-Flows result todo o (func ∷ funcs) h k e in
      (cells, left, ap some f, g, m)

  behind-Runs :
      (result : Outcome T) (todo : List (T → Outcome T)) (c : Cell T) (more : ℕ)
      (o : Option (Outcome (List (Cell T))))
      → IsIdle c
      → Runs result todo more o
      → Runs result todo more (behind c o)
  behind-Runs result todo c more o i (cells, left, e, f, m) =
      (c ∷ cells, left, ap (behind c) e, Flows-cons result todo c cells left i f, m)

  module _ (result : Outcome T) (todo : List (T → Outcome T)) (o : Outcome T)
      (funcs : List (T → Outcome T)) (total : o ≢ faults) (all_total : All Total funcs)
      (in_order : in_a_row (in_a_row o funcs) todo ≡ result) where
    -- The worker that has the task.
    pub run-found :
        (before : List (Cell T))
        → All IsIdle before
        → Runs result todo
            (length funcs)
            (run_task (length before) (before ++ pending (some o) funcs))
    unfolding run_task
    run-found [] i = run-pending result todo o funcs total all_total in_order
    run-found (c ∷ before) i = behind-Runs result todo c _ _ i.0 (run-found before i.1)

    -- Any worker.
    pub run-any :
        (before : List (Cell T)) (n : ℕ)
        → All IsIdle before
        → (run_task n (before ++ pending (some o) funcs) ≡ none)
          ⊎ Runs result todo (length funcs) (run_task n (before ++ pending (some o) funcs))
    run-any [] zero i = inr (run-pending result todo o funcs total all_total in_order)
    run-any [] (suc n) i = inl (idle_tail funcs)
      where
        idle_tail : (fs : List (T → Outcome T)) → run_task (suc n) (pending (some o) fs) ≡ none
        idle_tail [] = unfold run_task in refl
        idle_tail (f ∷ fs) =
            unfold run_task in ap (behind _) (run-idle n (pending none fs) (pending-IsIdle fs))
    run-any (c ∷ before) zero i = inl (run_first c i.0)
      where
        run_first :
            (c : Cell T) → IsIdle c → run_task zero (c ∷ before ++ pending (some o) funcs) ≡ none
        run_first c i = unfold run_task in rw i refl
    run-any (c ∷ before) (suc n) i = elim (run-any before n i.1) [
      | inl e ↦ inl (unfold run_task in ap (behind c) e)
      | inr r ↦ inr (unfold run_task in behind-Runs result todo c _ _ i.0 r)
    ]
