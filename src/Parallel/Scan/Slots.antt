-- ===== src/Parallel/Scan/Slots.antt =====
-- What the first round leaves in the slots: slot `n` holds the sum of the parts before part `n`.
use function_stream.Base.{
  ℕ, zero, suc, ◌+◌, ◌-◌, ◌≡◌, refl, ap, ◌∙◌, sym, List, [], ◌∷◌, ◌++◌, length, length-append, map,
  Option, none, some, modify, modify_comm, run, run-append, run-perm, replicate, arith,
  append_assoc,
}
use function_stream.Parallel.{TaskScheduler, count_up}
use function_stream.Parallel.ForEach.{run-modify}
use function_stream.Parallel.Scan.{add_to, slot_update, add_result, all_updates}

-- The sum before each part, `o` being what came before.
unfoldable pub sums_before : {A : Type 0} → (A → A → A) → Option A → List A → List (Option A)
sums_before op o [] = []
sums_before op o (v ∷ vs) = o ∷ sums_before op (add_to op v o) vs

module _ {A : Type 0} (op : A → A → A) where
  run-same :
      (v : A) (is : List ℕ) (s : List (Option A))
      → run (slot_update op) (map (λ i. (i, v)) is) s ≡ run (λ i r. modify r i (add_to op v)) is s
  run-same v [] s = refl
  run-same v (i ∷ is) s = run-same v is (modify s i (add_to op v))

  map-replicate :
      (v : A) (o : Option A) (n : ℕ)
      → map (add_to op v) (replicate n o) ≡ replicate n (add_to op v o)
  map-replicate v o zero = refl
  map-replicate v o (suc n) = ap (◌∷◌ (add_to op v o)) (map-replicate v o n)

  length-replicate : {B : Type 0} (n : ℕ) (b : B) → length (replicate n b) ≡ n
  length-replicate zero b = refl
  length-replicate (suc n) b = ap suc (length-replicate n b)

  -- One task's rounds change the slots behind its own, all alike.
  run-rounds :
      (before : List (Option A)) (o : Option A) (v : A) (pos m : ℕ)
      → pos ≡ length before
      → run
          (slot_update op)
          (map (λ i. (i, v)) (count_up (pos + 1) m))
          (before ++ o ∷ replicate m o)
        ≡ before ++ o ∷ replicate m (add_to op v o)
  run-rounds before o v pos m e =
      ap (run (slot_update op) (map (λ i. (i, v)) (count_up (pos + 1) m)))
        (sym (append_assoc before (o ∷ []) (replicate m o)))
      ∙ run-same v (count_up (pos + 1) m) (before ++ o ∷ [] ++ replicate m o)
      ∙ ap
          (λ l.
            run (λ i r. modify r i (add_to op v)) (count_up (pos + 1) l)
              (before ++ o ∷ [] ++ replicate m o))
          (sym (length-replicate m o))
      ∙ run-modify (add_to op v) (before ++ o ∷ []) (replicate m o) (pos + 1)
          (omega (arith, length-append before (o ∷ [])))
      ∙ ap (λ l. before ++ o ∷ [] ++ l) (map-replicate v o m)
      ∙ append_assoc before (o ∷ []) (replicate m (add_to op v o))

  -- One task after the other.
  run-updates :
      (before : List (Option A)) (o : Option A) (vs : List A) (pos n : ℕ)
      → pos ≡ length before
      → n ≡ pos + length vs
      → run (slot_update op) (all_updates op pos vs n) (before ++ replicate (length vs) o)
        ≡ before ++ sums_before op o vs
  unfolding all_updates sums_before add_result
  run-updates before o [] pos n e h = refl
  run-updates before o (v ∷ vs) pos n e h =
      run-append (slot_update op) (add_result op pos v n) (all_updates op (pos + 1) vs n) _
      ∙ ap (run (slot_update op) (all_updates op (pos + 1) vs n)) (
          ap (λ m. run (slot_update op) (map (λ i. (i, v)) (count_up (pos + 1) m)) start)
            {x = n - (pos + 1)} {y = length vs} (omega arith)
          ∙ run-rounds before o v pos (length vs) e
          ∙ sym (append_assoc before (o ∷ []) (replicate (length vs) (add_to op v o))))
      ∙ run-updates (before ++ o ∷ []) (add_to op v o) vs (pos + 1) n
          (omega (arith, length-append before (o ∷ []))) (omega arith)
      ∙ append_assoc before (o ∷ []) (sums_before op (add_to op v o) vs)
    where
      start : List (Option A)
      start = before ++ o ∷ replicate (length vs) o

  module _ (assoc : (a b c : A) → op (op a b) c ≡ op a (op b c))
      (comm : (a b : A) → op a b ≡ op b a) where
    add_to_comm :
        (v w : A) (o : Option A) → add_to op v (add_to op w o) ≡ add_to op w (add_to op v o)
    add_to_comm v w none = ap some (comm w v)
    add_to_comm v w (some r) = ap some (assoc r w v ∙ ap (op r) (comm w v) ∙ sym (assoc r v w))

    update_comm :
        (t u : ℕ × A) (s : List (Option A))
        → slot_update op u (slot_update op t s) ≡ slot_update op t (slot_update op u s)
    update_comm t u s = modify_comm (add_to op u.1) (add_to op t.1) (add_to_comm u.1 t.1) s t.0 u.0

    -- For an associative and commutative operation, in any interleaving of the tasks.
    pub slots-sums_before :
        (ts : TaskScheduler) (vs : List A)
        → run
            (slot_update op)
            (ts.order (ℕ × A) (all_updates op 0 vs (length vs)))
            (replicate (length vs) none)
          ≡ sums_before op none vs
    slots-sums_before ts vs =
        run-perm (slot_update op) update_comm (ts.order-perm (ℕ × A) _) _
        ∙ run-updates [] none vs 0 (length vs) refl (omega arith)
