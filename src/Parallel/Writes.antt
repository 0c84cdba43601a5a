-- ===== src/Parallel/Writes.antt =====
-- Writes of items at positions, interleaved in any order.
use function_stream.Base.{ℕ, ◌≡◌, refl, ap, ◌∙◌, List, [], ◌∷◌, ◌++◌, length, Permᴰ, run, arith}
use mathlib.Core.List.Permᴰ
use function_stream.Parallel.{write}
use function_stream.Parallel.Parts.{located}
use function_stream.Parallel.Updates.{updated, updates-located}

module _ {A : Type 0} where
  -- `out[w.0] = w.1`.
  abbrev pub write_at : ℕ × A → List A → List A
  write_at w out = write w.0 w.1 out

  updated-values : (vs old : List A) → length old ≡ length vs → updated (λ v x. v) vs old ≡ vs
  updated-values [] old h = refl
  updated-values (v ∷ vs) [] h = absurd (omega arith)
  updated-values (v ∷ vs) (x ∷ old) h = ap (◌∷◌ v) (updated-values vs old (omega arith))

  -- After any interleaving of the writes of consecutive positions, these hold what was written.
  pub run-located_perm :
      {ws : List (ℕ × A)} (before old vs after : List A) (k : ℕ)
      → k ≡ length before
      → Permᴰ ws (located k vs)
      → length old ≡ length vs
      → run write_at ws (before ++ old ++ after) ≡ before ++ vs ++ after
  run-located_perm before old vs after k e p h =
      updates-located (λ v x. v) before old after vs k e p h
      ∙ ap (λ l. before ++ l ++ after) (updated-values vs old h)

  -- The same in their order.
  pub run-located :
      (before old vs after : List A) (k : ℕ)
      → k ≡ length before
      → length old ≡ length vs
      → run write_at (located k vs) (before ++ old ++ after) ≡ before ++ vs ++ after
  run-located before old vs after k e h =
      run-located_perm before old vs after k e (Permᴰ.refl (located k vs)) h
