-- ===== src/Parallel/Parts.antt =====
-- The parts of a range cover it, in order.
use function_stream.Base.{
  ℕ, ◌+◌, ◌<◌, ◌≡◌, refl, ap, sym, ◌∙◌, List, [], ◌∷◌, ◌++◌, length, All, flatten, map, map-map,
  ◌≢◌, arith,
}
use function_stream.Parallel.{View, DawAlgorithm, views, split_range}

-- The items of a range from position `k` on, each with its position: what an iterator stands for.
unfoldable pub located {ℓ} : {A : Type ℓ} → ℕ → List A → List (ℕ × A)
located k [] = []
located k (x ∷ xs) = (k, x) ∷ located (k + 1) xs

abbrev pub positions : {A : Type 0} → View A → List (ℕ × A)
positions v = located v.first v.items

pub located-append {ℓ} :
    {A : Type ℓ} (k : ℕ) (xs ys : List A)
    → located k (xs ++ ys) ≡ located k xs ++ located (k + length xs) ys
unfolding located
located-append k [] ys = ap (λ n. located n ys) (omega arith)
located-append k (x ∷ xs) ys =
    ap (◌∷◌ (k, x))
      (located-append (k + 1) xs ys ∙ ap (λ n. located (k + 1) xs ++ located n ys) (omega arith))

module _ {A : Type 0} where
  pub items-views :
      (k : ℕ) (parts : List (List A)) → map (λ (v : View A). v.items) (views k parts) ≡ parts
  unfolding views
  items-views k [] = refl
  items-views k (p ∷ ps) = ap (◌∷◌ p) (items-views (k + length p) ps)

  pub positions-views :
      (k : ℕ) (parts : List (List A))
      → flatten (map positions (views k parts)) ≡ located k (flatten parts)
  unfolding views flatten located
  positions-views k [] = refl
  positions-views k (p ∷ ps) =
      ap (◌++◌ (located k p)) (positions-views (k + length p) ps)
      ∙ sym (located-append k p (flatten ps))

module _ (daw : DawAlgorithm) {A : Type 0} (min_size : ℕ) (range : List A) (max_parts : ℕ) where
  -- What is made of the views' items is made of the parts.
  pub map-split_range :
      {R : Type 0} (f : List A → R)
      → map (λ (v : View A). f v.items) (split_range daw min_size range max_parts)
        ≡ map f (daw.partition_range A min_size range max_parts)
  unfolding split_range
  map-split_range f = sym (map-map f (λ (v : View A). v.items) _) ∙ ap (map f) (items-views 0 _)

  pub items-split_range :
      0 < max_parts
      → flatten (map (λ (v : View A). v.items) (split_range daw min_size range max_parts)) ≡ range
  unfolding split_range
  items-split_range h =
      ap flatten (items-views 0 _) ∙ daw.partition_all A min_size range max_parts h

  pub positions-split_range :
      0 < max_parts
      → flatten (map positions (split_range daw min_size range max_parts)) ≡ located 0 range
  unfolding split_range
  positions-split_range h =
      positions-views 0 _ ∙ ap (located 0) (daw.partition_all A min_size range max_parts h)

  positions-All :
      (k : ℕ) (parts : List (List A))
      → All (λ part. part ≢ []) parts
      → All (λ part. part ≢ []) (map positions (views k parts))
  unfolding views located
  positions-All k [] full = tt
  positions-All k ([] ∷ parts) full = absurd (full.0 refl)
  positions-All k ((x ∷ xs) ∷ parts) full =
      ((λ e. cc), positions-All (k + length (x ∷ xs)) parts full.1)

  pub positions-nonempty :
      All (λ part. part ≢ []) (map positions (split_range daw min_size range max_parts))
  unfolding split_range
  positions-nonempty = positions-All 0 _ (daw.partition_nonempty A min_size range max_parts)

pub located-ne {ℓ} : {A : Type ℓ} (x : A) (xs : List A) → located 0 (x ∷ xs) ≢ []
unfolding located
located-ne x xs e = cc

-- A range that is not empty has a part.
pub parts-ne-nil {ℓ} : {A : Type ℓ} (parts : List (List A)) → flatten parts ≢ [] → parts ≢ []
unfolding flatten
parts-ne-nil [] h e = h refl
parts-ne-nil (p ∷ ps) h e = cc
