-- ===== src/Parallel/Scan/Two.antt =====
-- The branch of `parallel_scan` for two items.
use function_stream.Base.{◌≡◌, ◌↔◌, refl, [], ◌∷◌, returns}
use function_stream.Parallel.{DawAlgorithm, TaskScheduler}
use function_stream.Parallel.Scan.{running, partial_sum, parallel_scan, copy_front}

-- On two items and an output of two, `parallel_scan` copies the first item and leaves the second
-- output as it was: it writes the partial sums only if the second output held their last already.
pub parallel_scan-two :
    {A : Type 0} (op : A → A → A) (daw : DawAlgorithm) (ts : TaskScheduler) (x y a b : A)
    → (parallel_scan op daw ts (x ∷ y ∷ []) (a ∷ b ∷ []) ≡ returns (x ∷ b ∷ []))
      × ((parallel_scan op daw ts (x ∷ y ∷ []) (a ∷ b ∷ []) ≡ returns (partial_sum op (x ∷ y ∷ [])))
          ↔ (b ≡ op x y))
unfolding parallel_scan copy_front partial_sum running
parallel_scan-two op daw ts x y a b = (refl, ((λ h. cc), (λ e. rw e)))
