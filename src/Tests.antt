-- ===== src/Tests.antt =====
-- Instances of what the algorithms take as parameters, for the examples: a split into two parts, and a
-- scheduler of two threads that runs every group of tasks in reverse.
pub mod Algorithms
pub mod Groups
pub mod Overlaps
pub mod Schedulers
pub mod Runners
pub mod Streams
pub mod Threads
pub mod Futures
pub mod Chains
pub mod Contents
use mathlib.Core.List.{reverse}
use mathlib.Core.List.Permᴰ
use function_stream.Base.{
  ℕ, ◌+◌, ◌≤◌, ◌<◌, ◌≡◌, refl, ap, ◌∙◌, sym, ◌≢◌, Bool, true, false, ◌&&◌, List, [], ◌∷◌, ◌++◌,
  length, map, flatten, take, drop, All, append-nil, take-append-drop, length-append, length-take,
  ltb, leb, arith, Permᴰ, Bool-cases, inl, inr,
}
use function_stream.Parallel.{zip_with, DawAlgorithm, TaskScheduler, accumulate}

abbrev pub cuts : ℕ → ℕ → ℕ → Bool
cuts min_size max_parts n = ltb 1 max_parts && ltb 0 min_size && leb (min_size + min_size) n

module _ {A : Type 0} where
  -- Two parts, the first of the least size, or one.
  abbrev pub parts_if : Bool → ℕ → List A → List (List A)
  parts_if true n range = take n range ∷ drop n range ∷ []
  parts_if false n [] = []
  parts_if false n (x ∷ xs) = (x ∷ xs) ∷ []

  pub flatten-parts_if : (b : Bool) (n : ℕ) (range : List A) → flatten (parts_if b n range) ≡ range
  unfolding flatten
  flatten-parts_if true n range =
      ap (◌++◌ (take n range)) (append-nil (drop n range)) ∙ take-append-drop n range
  flatten-parts_if false n [] = refl
  flatten-parts_if false n (x ∷ xs) = append-nil (x ∷ xs)

  ne-of-length : (xs : List A) → 0 < length xs → xs ≢ []
  ne-of-length xs h e = omega (arith, h, ap length e)

  length-drop_add :
      (n : ℕ) (range : List A) → n ≤ length range → n + length (drop n range) ≡ length range
  length-drop_add n range h = omega (
    arith,
    length-take n range h,
    length-append (take n range) (drop n range),
    ap length (take-append-drop n range),
  )

  pub parts_if-nonempty :
      (b : Bool) (min_size max_parts : ℕ) (range : List A)
      → cuts min_size max_parts (length range) ≡ b
      → All (λ part. part ≢ []) (parts_if b min_size range)
  parts_if-nonempty true min_size max_parts range e =
      let (h, k) = bounds in
      (
        ne-of-length _ (omega (arith, length-take min_size range (omega arith))),
        (ne-of-length _ (omega (arith, length-drop_add min_size range (omega arith))), tt),
      )
    where
      bounds : (0 < min_size) × (min_size + min_size ≤ length range)
      bounds = ground arith
  parts_if-nonempty false min_size max_parts [] e = tt
  parts_if-nonempty false min_size max_parts (x ∷ xs) e = ((λ f. cc), tt)

pub sizes-parts_if :
    {A B : Type 0} (b : Bool) (min_size max_parts : ℕ) (range₁ : List A) (range₂ : List B)
    → cuts min_size max_parts (length range₁) ≡ b
    → length range₁ ≡ length range₂
    → map length (parts_if b min_size range₁) ≡ map length (parts_if b min_size range₂)
sizes-parts_if true min_size max_parts range₁ range₂ e same = cc (firsts, seconds)
  where
    small : min_size ≤ length range₁
    small = ground arith

    small₂ : min_size ≤ length range₂
    small₂ = omega (arith, small)

    firsts : length (take min_size range₁) ≡ length (take min_size range₂)
    firsts = omega (arith, length-take min_size range₁ small, length-take min_size range₂ small₂)

    seconds : length (drop min_size range₁) ≡ length (drop min_size range₂)
    seconds =
        omega (arith, length-drop_add min_size range₁ small, length-drop_add min_size range₂ small₂)
sizes-parts_if false min_size max_parts [] [] e same = refl
sizes-parts_if false min_size max_parts [] (y ∷ ys) e same = absurd (omega arith)
sizes-parts_if false min_size max_parts (x ∷ xs) [] e same = absurd (omega arith)
sizes-parts_if false min_size max_parts (x ∷ xs) (y ∷ ys) e same = ap (λ n. n ∷ []) same

abbrev pub in_two : DawAlgorithm
in_two = record {
  partition_range = λ A min_size range max_parts.
      parts_if (cuts min_size max_parts (length range)) min_size range;
  partition_all = λ A min_size range max_parts h. flatten-parts_if _ min_size range;
  partition_nonempty =
      λ A min_size range max_parts. parts_if-nonempty _ min_size max_parts range refl;
  partition_sizes = λ A B min_size range₁ range₂ max_parts e.
      sizes-parts_if _ min_size max_parts range₁ range₂ refl e
      ∙ ap (λ n. map length (parts_if (cuts min_size max_parts n) min_size range₂)) e;
  reduce = λ A. accumulate;
  reduce-accumulate = λ A op init range. refl;
  map_range = λ A B. map;
  map_range-map = λ A B op range. refl;
  map_ranges = λ A B C. zip_with;
  map_ranges-zip_with = λ A B C op range₁ range₂ h. refl;
}

abbrev pub in_reverse : TaskScheduler
in_reverse = record {
  size = 2;
  size_pos = omega arith;
  order = λ T tasks. reverse tasks;
  order-perm = λ T tasks. Permᴰ.reverse tasks;
}
