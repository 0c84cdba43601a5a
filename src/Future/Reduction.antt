-- ===== src/Future/Reduction.antt =====
-- `impl::reduce_futures2` of include/daw/fs/future_result.h, one round of the reduction of futures. A
-- future stands for its value, and `next` on a pair of futures for the operation on their values.
use function_stream.Base.{
  ℕ, zero, suc, ◌+◌, ◌-◌, ◌*◌, ◌/◌, ◌%◌, ◌≤◌, ◌<◌, ◌≡◌, refl, ap, ◌∙◌, List, [], ◌∷◌, ◌++◌, length,
  get_elem?, Option, none, some, ◌==◌, if◌then◌else◌, Outcome, returns, throws, faults, ◌>>=◌,
  deref, arith,
}

module _ {A : Type 0} (binary_op : A → A → A) (items : List A) where
  -- The loop, `first` and `last` being `n` pairs apart: `l_it = ++first` and `r_it = ++first`.
  unfoldable pub pair_loop : ℕ → ℕ → Outcome (List A)
  pair_loop zero first = returns []
  pair_loop (suc n) first = do
    lhs ← deref (get_elem? items (first + 1))
    rhs ← deref (get_elem? items (first + 2))
    rest ← pair_loop n (first + 2)
    returns (binary_op lhs rhs ∷ rest)

  -- `if( odd_count ) *out_it = DAW_MOVE( *last );`
  unfoldable pub with_last : List A → Outcome (List A)
  with_last pairs =
      if length items % 2 == 1
      then (do value ← deref (get_elem? items (length items - 1)); returns (pairs ++ value ∷ []))
      else returns pairs

  get_elem?-none : (xs : List A) (i : ℕ) → length xs ≤ i → get_elem? xs i ≡ none
  get_elem?-none [] i h = refl
  get_elem?-none (x ∷ xs) zero h = absurd (omega arith)
  get_elem?-none (x ∷ xs) (suc i) h = get_elem?-none xs i (omega arith)

  deref-faults :
      (o : Option A) {f : A → Outcome (List A)}
      → ((a : A) → f a ≡ faults)
      → (deref o >>= f) ≡ faults
  deref-faults none h = refl
  deref-faults (some a) h = h a

  -- A loop that comes to the end of the items reads past it.
  pair_loop-faults :
      (n first : ℕ) → 0 < n → length items ≤ first + 2 * n → pair_loop n first ≡ faults
  unfolding pair_loop
  pair_loop-faults zero first h e = absurd (omega arith)
  pair_loop-faults (suc zero) first h e =
      deref-faults (get_elem? items (first + 1))
        (λ lhs. rw (get_elem?-none items (first + 2) (omega arith)) refl)
  pair_loop-faults (suc (suc n)) first h e = deref-faults (get_elem? items (first + 1)) (λ lhs.
      deref-faults (get_elem? items (first + 2)) (λ rhs.
        ap (λ o. o >>= λ rest. returns (binary_op lhs rhs ∷ rest))
          (pair_loop-faults (suc n) (first + 2) (omega arith) (omega arith))))

module _ {A : Type 0} (binary_op : A → A → A) where
  unfoldable pub reduce_futures2 : List A → Outcome (List A)
  unfolding pair_loop with_last
  reduce_futures2 [] = returns []
  reduce_futures2 (x ∷ []) = returns (x ∷ [])
  reduce_futures2 (x ∷ y ∷ rest) =
      pair_loop binary_op (x ∷ y ∷ rest) (length (x ∷ y ∷ rest) / 2) 0
      >>= with_last binary_op (x ∷ y ∷ rest)

  -- A round over an even number of futures, two or more, reads past their end.
  pub reduce_futures2-faults :
      (x y : A) (rest : List A) → length rest % 2 ≡ 0 → reduce_futures2 (x ∷ y ∷ rest) ≡ faults
  unfolding reduce_futures2
  reduce_futures2-faults x y rest even =
      ap (λ o. o >>= with_last binary_op (x ∷ y ∷ rest))
        (pair_loop-faults binary_op (x ∷ y ∷ rest) (length (x ∷ y ∷ rest) / 2) 0 (omega arith)
          (omega arith))

  module _ (x z : A) (xs : List A) where
    later-same : (i : ℕ) → 0 < i → get_elem? (x ∷ xs) i ≡ get_elem? (z ∷ xs) i
    later-same zero h = absurd (omega arith)
    later-same (suc i) h = refl

    pair_loop-same :
        (n first : ℕ) → pair_loop binary_op (x ∷ xs) n first ≡ pair_loop binary_op (z ∷ xs) n first
    unfolding pair_loop
    pair_loop-same zero first = refl
    pair_loop-same (suc n) first =
        rw
          (
            later-same (first + 1) (omega arith),
            later-same (first + 2) (omega arith),
            pair_loop-same n (first + 2),
          )
          refl

    with_last-same :
        (pairs : List A)
        → 0 < length xs
        → with_last binary_op (x ∷ xs) pairs ≡ with_last binary_op (z ∷ xs) pairs
    unfolding with_last
    with_last-same pairs h = rw (later-same (length (x ∷ xs) - 1) (omega arith)) refl

  bind-same :
      (o : Outcome (List A)) {f g : List A → Outcome (List A)}
      → ((l : List A) → f l ≡ g l)
      → (o >>= f) ≡ (o >>= g)
  bind-same (returns l) h = h l
  bind-same throws h = refl
  bind-same faults h = refl

  -- A round over two or more futures never uses the first one: whatever it holds, the outcome is the
  -- same.
  pub reduce_futures2-skips :
      (x z y : A) (rest : List A) → reduce_futures2 (x ∷ y ∷ rest) ≡ reduce_futures2 (z ∷ y ∷ rest)
  unfolding reduce_futures2
  reduce_futures2-skips x z y rest =
      ap (λ o. o >>= with_last binary_op (x ∷ y ∷ rest)) (pair_loop-same x z (y ∷ rest) _ 0)
      ∙ bind-same (pair_loop binary_op (z ∷ y ∷ rest) _ 0)
          (λ l. with_last-same x z (y ∷ rest) l (omega arith))
