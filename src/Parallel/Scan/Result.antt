-- ===== src/Parallel/Scan/Result.antt =====
-- `parallel_scan` against `std::partial_sum`.
use function_stream.Base.{
  ℕ, zero, suc, ◌+◌, ◌-◌, ◌≡◌, ◌≢◌, refl, ap, ◌∙◌, sym, List, [], ◌∷◌, ◌++◌, length, length-append,
  length-map, length-take, length-eq-zero, map, none, some, get_elem?, take, drop, take-append-drop,
  run, replicate, arith, append-nil, Permᴰ, returns, deref, ◌>>=◌, flatten, All,
}
use mathlib.Core.Path.{ap₂}
use function_stream.Parallel.{View, DawAlgorithm, TaskScheduler, accumulate, views, split_range}
use function_stream.Parallel.Parts.{located, located-append}
use function_stream.Parallel.Writes.{write_at, run-located, run-located_perm}
use function_stream.Parallel.Reduce.{accumulate_assoc}
use function_stream.Parallel.Scan.{
  running, partial_sum, part_value, part_values, slot_update, all_updates, second_writes,
  scan_rounds, scan_ranges, parallel_scan,
}
use function_stream.Parallel.Scan.Slots.{sums_before, slots-sums_before}

-- A part that is not empty, by its front and the rest.
abbrev whole : {A : Type 0} → A × List A → List A
whole p = p.0 ∷ p.1

fronts :
    {A : Type 0} (parts : List (List A))
    → All (λ part. part ≢ []) parts
    → (ps : List (A × List A)) × (parts ≡ map whole ps)
fronts [] full = ([], refl)
fronts ([] ∷ parts) full = absurd (full.0 refl)
fronts ((x ∷ xs) ∷ parts) full =
    let (ps, e) = fronts parts full.1 in ((x, xs) ∷ ps, ap (◌∷◌ (x ∷ xs)) e)

module _ {A : Type 0} (op : A → A → A) where
  abbrev sum_of : A × List A → A
  sum_of p = accumulate op p.0 p.1

  running-append :
      (b : A) (xs ys : List A)
      → running op b (xs ++ ys) ≡ running op b xs ++ running op (accumulate op b xs) ys
  unfolding running accumulate
  running-append b [] ys = refl
  running-append b (x ∷ xs) ys = ap (◌∷◌ (op b x)) (running-append (op b x) xs ys)

  length-running : (b : A) (xs : List A) → length (running op b xs) ≡ length xs
  unfolding running
  length-running b [] = refl
  length-running b (x ∷ xs) = ap suc (length-running (op b x) xs)

  last-running :
      (x : A) (xs : List A)
      → get_elem? (x ∷ running op x xs) (length (running op x xs)) ≡ some (accumulate op x xs)
  unfolding running accumulate
  last-running x [] = refl
  last-running x (y ∷ xs) = last-running (op x y) xs

  module _ (daw : DawAlgorithm) where
    part_value-sum : (n : ℕ) (p : A × List A) → part_value op daw n (whole p) ≡ returns (sum_of p)
    unfolding part_value partial_sum
    part_value-sum zero p =
        ap (λ i. deref (get_elem? (p.0 ∷ running op p.0 p.1) i))
          {x = suc (length (running op p.0 p.1)) - 1} {y = length (running op p.0 p.1)}
          (omega arith)
        ∙ ap deref (last-running p.0 p.1)
    part_value-sum (suc n) p = ap returns (daw.reduce-accumulate A op p.0 p.1)

    part_values-sums :
        (n k : ℕ) (ps : List (A × List A))
        → part_values op daw n (views k (map whole ps)) ≡ returns (map sum_of ps)
    unfolding part_values views
    part_values-sums n k [] = refl
    part_values-sums n k (p ∷ ps) =
        rw (part_value-sum n p) (rw (part_values-sums (n + 1) (k + length (whole p)) ps) refl)

  module _ (assoc : (a b c : A) → op (op a b) c ≡ op a (op b c)) where
    -- The second round of one part, and what follows it.
    one_more :
        (b : A) (k : ℕ) (p : A × List A) (rest : List A)
        → located k (running op b (whole p))
            ++ located (k + length (whole p)) (running op (op b (sum_of p)) rest)
          ≡ located k (running op b (whole p ++ rest))
    unfolding accumulate
    one_more b k p rest =
        ap₂ (λ n c. located k (running op b (whole p)) ++ located (k + n) (running op c rest))
          (sym (length-running b (whole p))) (sym (accumulate_assoc op assoc b p.0 p.1))
        ∙ sym (
            located-append k (running op b (whole p)) (running op (accumulate op b (whole p)) rest))
        ∙ ap (located k) (sym (running-append b (whole p) rest))

    second_writes-running :
        (b : A) (k : ℕ) (ps : List (A × List A))
        → second_writes op (sums_before op (some b) (map sum_of ps)) (views k (map whole ps))
          ≡ returns (located k (running op b (flatten (map whole ps))))
    unfolding second_writes sums_before views flatten
    second_writes-running b k [] = unfold running located in refl
    second_writes-running b k (p ∷ ps) =
        ap (λ o. o >>= λ ws. returns (located k (running op b (whole p)) ++ ws))
          (second_writes-running (op b (sum_of p)) (k + length (whole p)) ps)
        ∙ ap returns (one_more b k p (flatten (map whole ps)))

length-views : {A : Type 0} (k : ℕ) (parts : List (List A)) → length (views k parts) ≡ length parts
unfolding views
length-views k [] = refl
length-views k (p ∷ ps) = ap suc (length-views (k + length p) ps)

module _ {A : Type 0} (op : A → A → A) (assoc : (a b c : A) → op (op a b) c ≡ op a (op b c))
    (comm : (a b : A) → op a b ≡ op b a) (ts : TaskScheduler) where
  module _ (p : A × List A) (ps : List (A × List A)) where
    abbrev rest_of : List A
    rest_of = flatten (map whole ps)

    abbrev first_view : View A
    first_view = record { first = 0; items = whole p }

    abbrev later_views : List (View A)
    later_views = views (0 + length (whole p)) (map whole ps)

    slots :
        run
          (slot_update op)
          (ts.order
            (ℕ × A)
            (all_updates op 0 (map (sum_of op) (p ∷ ps)) (length (first_view ∷ later_views))))
          (replicate (length (first_view ∷ later_views)) none)
        ≡ sums_before op none (map (sum_of op) (p ∷ ps))
    slots =
        ap
          (λ n.
            run (slot_update op) (ts.order (ℕ × A) (all_updates op 0 (map (sum_of op) (p ∷ ps)) n))
              (replicate n none))
          (ap suc (
            length-views (0 + length (whole p)) (map whole ps)
            ∙ length-map whole ps
            ∙ sym (length-map (sum_of op) ps)))
        ∙ slots-sums_before op assoc comm ts (map (sum_of op) (p ∷ ps))

    -- The first part's writes and, in any interleaving, those of the second round.
    all_writes :
        (range_out : List A) {ws : List (ℕ × A)}
        → length range_out ≡ length (whole p ++ rest_of)
        → Permᴰ ws (located (length (whole p)) (running op (sum_of op p) rest_of))
        → run write_at ws (run write_at (located 0 (partial_sum op (whole p))) range_out)
          ≡ partial_sum op (whole p ++ rest_of)
    unfolding partial_sum
    all_writes range_out {ws} h perm =
        ap (λ l. run write_at ws (run write_at (located 0 first) l))
          (sym (take-append-drop n range_out))
        ∙ ap (run write_at ws) (
            run-located [] (take n range_out) first (drop n range_out) 0 refl
              (omega (arith, short, sizes))
            ∙ sym (append-nil (first ++ drop n range_out)))
        ∙ run-located_perm first (drop n range_out) later [] n (omega (arith, sizes)) perm (
            omega (
              arith,
              left,
              length-append (whole p) rest_of,
              length-running op (sum_of op p) rest_of,
            ))
        ∙ append-nil (first ++ later)
        ∙ ap (◌∷◌ p.0) (sym (running-append op p.0 p.1 rest_of))
      where
        n : ℕ
        n = length (whole p)

        first : List A
        first = partial_sum op (whole p)

        later : List A
        later = running op (sum_of op p) rest_of

        sizes : length first ≡ n
        sizes = ap suc (length-running op p.0 p.1)

        short : length (take n range_out) ≡ n
        short = length-take n range_out (omega (arith, length-append (whole p) rest_of))

        left : n + length (drop n range_out) ≡ length range_out
        left = omega (
          arith,
          short,
          length-append (take n range_out) (drop n range_out),
          ap length (take-append-drop n range_out),
        )

    scan_rounds-sum :
        (range_out : List A)
        → length range_out ≡ length (whole p ++ rest_of)
        → scan_rounds op ts first_view later_views range_out (map (sum_of op) (p ∷ ps))
          ≡ returns (partial_sum op (whole p ++ rest_of))
    unfolding scan_rounds sums_before
    scan_rounds-sum range_out h =
        ap (λ s. second_writes op (drop 1 s) later_views >>= λ ws. returns (finish ws)) slots
        ∙ ap (λ o. o >>= λ ws. returns (finish ws))
            (second_writes-running op assoc (sum_of op p) (0 + length (whole p)) ps
              ∙ ap (λ k. returns (located k (running op (sum_of op p) rest_of))) (omega arith))
        ∙ ap returns (all_writes range_out h (ts.order-perm (ℕ × A) _))
      where
        finish : List (ℕ × A) → List A
        finish ws =
            run write_at (ts.order (ℕ × A) ws)
              (run write_at (located 0 (partial_sum op (whole p))) range_out)

  scan_parts :
      (daw : DawAlgorithm) (parts : List (List A)) (range_out : List A)
      → All (λ part. part ≢ []) parts
      → length range_out ≡ length (flatten parts)
      → scan_ranges op daw ts (views 0 parts) range_out ≡ returns (partial_sum op (flatten parts))
  unfolding scan_ranges views flatten partial_sum
  scan_parts daw parts range_out full h =
      let (ps, e) = fronts parts full in rw e (go ps (ap (λ l. length (flatten l)) e))
    where
      go :
          (ps : List (A × List A))
          → length (flatten parts) ≡ length (flatten (map whole ps))
          → scan_ranges op daw ts (views 0 (map whole ps)) range_out
            ≡ returns (partial_sum op (flatten (map whole ps)))
      go [] e = ap returns (length-eq-zero range_out (h ∙ e))
      go (p ∷ ps) e =
          ap (λ o. o >>= scan_rounds op ts (first_view p ps) (later_views p ps) range_out)
            (part_values-sums op daw 0 0 (p ∷ ps))
          ∙ scan_rounds-sum p ps range_out (h ∙ e)

  -- On two ranges of the same size other than two `parallel_scan` writes the partial sums of the
  -- input, if the operation is associative and commutative, whatever the split, the number of workers
  -- and the interleaving of the tasks.
  pub parallel_scan-partial_sum :
      (daw : DawAlgorithm) (range_in range_out : List A)
      → length range_in ≡ length range_out
      → length range_in ≢ 2
      → parallel_scan op daw ts range_in range_out ≡ returns (partial_sum op range_in)
  unfolding parallel_scan split_range
  parallel_scan-partial_sum daw range_in range_out same other =
      tests
      ∙ scan_parts daw parts range_out (daw.partition_nonempty A 1 range_in ts.size)
          (sym same ∙ ap length (sym all))
      ∙ ap (λ l. returns (partial_sum op l)) all
    where
      parts : List (List A)
      parts = daw.partition_range A 1 range_in ts.size

      all : flatten parts ≡ range_in
      all = daw.partition_all A 1 range_in ts.size ts.size_pos

      tests :
          parallel_scan op daw ts range_in range_out
          ≡ scan_ranges op daw ts (views 0 parts) range_out
      tests = ground arith
