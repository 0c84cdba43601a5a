-- ===== src/Parallel/Updates.antt =====
-- Updates of the items of a list at positions, each depending on its position only, interleaved in any
-- order.
use function_stream.Base.{
  ℕ, suc, ◌+◌, ◌-◌, ◌≡◌, refl, ap, ◌∙◌, sym, subst, List, [], ◌∷◌, ◌++◌, length, length-append, map,
  Option, none, some, get_elem?, modify, modify_comm_ne, modify-middle, run, run-perm, All, arith,
  append_assoc, Permᴰ,
}
use mathlib.Core.List.Permᴰ
use native.Mathlib.Decide.{ℕ_discrete}
use function_stream.Parallel.Parts.{located}

All-perm {ℓ κ} : {A : Type ℓ} (P : A → Type κ) {xs ys : List A} → Permᴰ xs ys → All P ys → All P xs
All-perm P Permᴰ.nil h = tt
All-perm P (Permᴰ.cons e p) h = (subst P (sym e) h.0, All-perm P p h.1)
All-perm P (Permᴰ.swap e f) h = (subst P (sym e) h.1.0, (subst P (sym f) h.0, h.1.1))
All-perm P (Permᴰ.trans p q) h = All-perm P p (All-perm P q h)

module _ {V A : Type 0} (f : V → A → A) where
  -- The item at a position is replaced by what is made of it and of a value.
  abbrev pub update_at : ℕ × V → List A → List A
  update_at u items = modify items u.0 (f u.1)

  -- Each item with its value.
  abbrev pub updated : List V → List A → List A
  updated [] items = []
  updated (v ∷ vs) [] = []
  updated (v ∷ vs) (x ∷ items) = f v x ∷ updated vs items

  module _ (value : ℕ → Option V) where
    -- The value at a position depends on the position only.
    abbrev pub Fits : ℕ × V → Type 0
    Fits u = value u.0 ≡ some u.1

    abbrev at : ℕ → List A → List A
    at i items = elim (value i) [ none ↦ items | some v ↦ modify items i (f v) ]

    at_comm : (i j : ℕ) (items : List A) → at j (at i items) ≡ at i (at j items)
    at_comm i j items = elim (ℕ_discrete i j) [
      | yes same ↦ rw same refl
      | no differ ↦ grind (arith, modify_comm_ne)
    ]

    run-at :
        (us : List (ℕ × V)) (items : List A)
        → All Fits us
        → run update_at us items ≡ run at (map (λ u. u.0) us) items
    run-at [] items h = refl
    run-at (u ∷ us) items h =
        run-at us (update_at u items) h.1
        ∙ ap
            (λ o.
              run at (map (λ u. u.0) us)
                (elim o [ none ↦ items | some v ↦ modify items u.0 (f v) ]))
            (sym h.0)

    -- Such updates may be run in any order.
    pub updates-perm :
        {us ws : List (ℕ × V)}
        → All Fits ws
        → Permᴰ us ws
        → (items : List A) → run update_at us items ≡ run update_at ws items
    updates-perm {us} {ws} h p items =
        run-at us items (All-perm Fits p h)
        ∙ run-perm at at_comm (Permᴰ.map (λ u. u.0) p) items
        ∙ sym (run-at ws items h)

  Fits-located :
      (value : ℕ → Option V) (k : ℕ) (vs : List V)
      → ((i : ℕ) → value (k + i) ≡ get_elem? vs i)
      → All (Fits value) (located k vs)
  unfolding located
  Fits-located value k [] h = tt
  Fits-located value k (v ∷ vs) h = (
    subst (λ i. value i ≡ some v) (omega arith) (h 0),
    Fits-located value (k + 1) vs
        (λ i. subst (λ j. value j ≡ get_elem? vs i) (omega arith) (h (suc i))),
  )

  -- Consecutive updates change consecutive items.
  run-located :
      (before old after : List A) (vs : List V) (k : ℕ)
      → k ≡ length before
      → length old ≡ length vs
      → run update_at (located k vs) (before ++ old ++ after) ≡ before ++ updated vs old ++ after
  unfolding located
  run-located before [] after [] k e h = refl
  run-located before [] after (v ∷ vs) k e h = absurd (omega arith)
  run-located before (x ∷ old) after [] k e h = absurd (omega arith)
  run-located before (x ∷ old) after (v ∷ vs) k e h =
      ap (run update_at (located (k + 1) vs)) this_update
      ∙ run-located (before ++ f v x ∷ []) old after vs (k + 1)
          (omega (arith, length-append before (f v x ∷ []))) (omega arith)
      ∙ ap (λ l. l ++ after) (append_assoc before (f v x ∷ []) (updated vs old))
    where
      this_update :
          update_at (k, v) (before ++ (x ∷ old) ++ after) ≡ before ++ f v x ∷ [] ++ old ++ after
      this_update =
          ap (update_at (k, v)) (append_assoc before (x ∷ old) after)
          ∙ modify-middle before (old ++ after) x k (f v) e
          ∙ sym (append_assoc before (f v x ∷ []) (old ++ after))
          ∙ sym (append_assoc (before ++ f v x ∷ []) old after)

  -- The same after any interleaving of the updates.
  pub updates-located :
      {us : List (ℕ × V)} (before old after : List A) (vs : List V) (k : ℕ)
      → k ≡ length before
      → Permᴰ us (located k vs)
      → length old ≡ length vs
      → run update_at us (before ++ old ++ after) ≡ before ++ updated vs old ++ after
  updates-located before old after vs k e p h =
      updates-perm value (Fits-located value k vs (λ i. ap (get_elem? vs) (omega arith))) p
        (before ++ old ++ after)
      ∙ run-located before old after vs k e h
    where
      value : ℕ → Option V
      value i = get_elem? vs (i - k)
