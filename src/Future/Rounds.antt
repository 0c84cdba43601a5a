-- ===== src/Future/Rounds.antt =====
-- `reduce_futures` of include/daw/fs/future_result.h: rounds of `reduce_futures2` until one future is
-- left. A future stands for its value.
use function_stream.Base.{
  ℕ, zero, suc, ◌+◌, ◌-◌, ◌/◌, ◌%◌, ◌≤◌, ◌≡◌, ◌⊎◌, inl, inr, refl, ap, ◌∙◌, List, [], ◌∷◌, ◌++◌,
  length, length-append, get_elem?, Option, none, some, Option-cases, Bool-cases, ◌==◌, Outcome,
  returns, throws, faults, ◌>>=◌, deref, arith,
}
use function_stream.Future.Reduction.{pair_loop, with_last, reduce_futures2, reduce_futures2-faults}

-- What a reduction can give at all.
abbrev pub alone : {A : Type 0} → List A → Outcome A
alone [] = faults
alone (x ∷ []) = returns x
alone (x ∷ y ∷ rest) = faults

-- What follows a round that returns.
abbrev pub with_results :
    {A : Type 0} → Outcome (List A) → (List A → Option (Outcome A)) → Option (Outcome A)
with_results (returns results) f = f results
with_results throws f = some throws
with_results faults f = some faults

module _ {A : Type 0} (binary_op : A → A → A) where
  -- `while( results.size( ) > 1 )`, and `results.front( )` of what is left, which an empty vector does
  -- not have. none says that the fuel ran out; the number of futures is enough.
  unfoldable pub round_loop : ℕ → List A → Option (Outcome A)
  round_loop fuel [] = some faults
  round_loop fuel (x ∷ []) = some (returns x)
  round_loop zero (x ∷ y ∷ rest) = none
  round_loop (suc fuel) (x ∷ y ∷ rest) =
      with_results (reduce_futures2 binary_op (x ∷ y ∷ rest)) (round_loop fuel)

  -- The first round is made of any number of futures.
  unfoldable pub reduce_futures : List A → Option (Outcome A)
  unfolding round_loop
  reduce_futures items = with_results (reduce_futures2 binary_op items) (round_loop (length items))

  -- A round faults, or leaves `n` items.
  abbrev Leaves : ℕ → Outcome (List A) → Type 0
  Leaves n o = (o ≡ faults) ⊎ ((l : List A) × (o ≡ returns l) × (length l ≡ n))

  Leaves-deref :
      (n : ℕ) (o : Option A) (f : A → Outcome (List A))
      → ((a : A) → Leaves n (f a))
      → Leaves n (deref o >>= f)
  Leaves-deref n none f h = inl refl
  Leaves-deref n (some a) f h = h a

  Leaves-cons :
      (n : ℕ) (a : A) (o : Outcome (List A))
      → Leaves n o
      → Leaves (suc n) (o >>= λ rest. returns (a ∷ rest))
  Leaves-cons n a o (inl e) = inl (rw e)
  Leaves-cons n a o (inr (l, e, m)) = inr (a ∷ l, rw e, ap suc m)

  pair_loop-Leaves : (items : List A) (n first : ℕ) → Leaves n (pair_loop binary_op items n first)
  unfolding pair_loop
  pair_loop-Leaves items zero first = inr ([], refl, refl)
  pair_loop-Leaves items (suc n) first =
      Leaves-deref (suc n) (get_elem? items (first + 1)) _ (λ lhs.
        Leaves-deref (suc n) (get_elem? items (first + 2)) _
          (λ rhs. Leaves-cons n (binary_op lhs rhs) _ (pair_loop-Leaves items n (first + 2))))

  with_last-Leaves :
      (items pairs : List A)
      → length items % 2 ≡ 1
      → Leaves (suc (length pairs)) (with_last binary_op items pairs)
  unfolding with_last
  with_last-Leaves items pairs odd = elim (Option-cases (get_elem? items (length items - 1))) [
    | inl past ↦ inl (ground arith)
    | inr (value, e) ↦
        inr (pairs ++ value ∷ [], ground arith, omega (arith, length-append pairs (value ∷ [])))
  ]

  Leaves-bind :
      (n : ℕ) (o : Outcome (List A)) (f : List A → Outcome (List A))
      → Leaves n o
      → ((l : List A) → Leaves (suc (length l)) (f l))
      → Leaves (suc n) (o >>= f)
  Leaves-bind n o f (inl e) h = inl (rw e)
  Leaves-bind n o f (inr (l, e, m)) h = elim (h l) [
    | inl fault ↦ inl (rw e fault)
    | inr (k, g, p) ↦ inr (k, rw e g, omega (arith, p, m))
  ]

  -- A round over an odd number of futures, three or more, leaves two or more.
  odd-Leaves :
      (x y : A) (rest : List A)
      → length rest % 2 ≡ 1
      → Leaves (suc (length (x ∷ y ∷ rest) / 2)) (reduce_futures2 binary_op (x ∷ y ∷ rest))
  unfolding reduce_futures2
  odd-Leaves x y rest odd =
      Leaves-bind _ _ _ (pair_loop-Leaves (x ∷ y ∷ rest) (length (x ∷ y ∷ rest) / 2) 0)
        (λ l. with_last-Leaves (x ∷ y ∷ rest) l (omega arith))

  parity : (n : ℕ) → (n % 2 ≡ 0) ⊎ (n % 2 ≡ 1)
  parity n = elim (Bool-cases (n % 2 == 0)) [
    | inl e ↦ inl (ground arith)
    | inr e ↦ inr (ground arith)
  ]

  round_loop-faults :
      (fuel : ℕ) (items : List A)
      → 2 ≤ length items
      → length items ≤ fuel + 1
      → round_loop fuel items ≡ some faults
  unfolding round_loop
  round_loop-faults fuel [] h m = refl
  round_loop-faults fuel (x ∷ []) h m = absurd (omega arith)
  round_loop-faults zero (x ∷ y ∷ rest) h m = absurd (omega arith)
  round_loop-faults (suc fuel) (x ∷ y ∷ rest) h m = elim (parity (length rest)) [
    | inl even ↦
        ap (λ o. with_results o (round_loop fuel)) (reduce_futures2-faults binary_op x y rest even)
    | inr odd ↦ elim (odd-Leaves x y rest odd) [
      | inl fault ↦ ap (λ o. with_results o (round_loop fuel)) fault
      | inr (l, e, k) ↦
          ap (λ o. with_results o (round_loop fuel)) e
          ∙ round_loop-faults fuel l (omega (arith, k)) (omega (arith, k))
    ]
  ]

  -- `reduce_futures` of one future gives that future; of any other number of futures it ends with a
  -- read out of bounds.
  pub reduce_futures-alone : (items : List A) → reduce_futures items ≡ some (alone items)
  unfolding reduce_futures
  reduce_futures-alone [] = unfold reduce_futures2 round_loop in refl
  reduce_futures-alone (x ∷ []) = unfold reduce_futures2 round_loop in refl
  reduce_futures-alone (x ∷ y ∷ rest) = elim (parity (length rest)) [
    | inl even ↦
        ap (λ o. with_results o (round_loop (length (x ∷ y ∷ rest))))
          (reduce_futures2-faults binary_op x y rest even)
    | inr odd ↦ elim (odd-Leaves x y rest odd) [
      | inl fault ↦ ap (λ o. with_results o (round_loop (length (x ∷ y ∷ rest)))) fault
      | inr (l, e, k) ↦
          ap (λ o. with_results o (round_loop (length (x ∷ y ∷ rest)))) e
          ∙ round_loop-faults (length (x ∷ y ∷ rest)) l (omega (arith, k)) (omega (arith, k))
    ]
  ]
