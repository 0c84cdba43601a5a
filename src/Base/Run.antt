-- ===== src/Base/Run.antt =====
-- A list of tasks run one after the other, and why their order does not matter when they commute.
use mathlib.Core.Path.{◌≡◌, refl, ap, ◌∙◌}
use mathlib.Core.List.{List, [], ◌∷◌, ◌++◌, Permᴰ}

module _ {ℓ κ} {T : Type ℓ} {S : Type κ} (step : T → S → S) where
  abbrev pub run : List T → S → S
  run [] s = s
  run (t ∷ ts) s = run ts (step t s)

  pub run-append : (ts us : List T) (s : S) → run (ts ++ us) s ≡ run us (run ts s)
  run-append [] us s = refl
  run-append (t ∷ ts) us s = run-append ts us (step t s)

  pub run-perm :
      ((t u : T) (s : S) → step u (step t s) ≡ step t (step u s))
      → {ts us : List T} → Permᴰ ts us
      → (s : S) → run ts s ≡ run us s
  run-perm c Permᴰ.nil s = refl
  run-perm c (Permᴰ.cons {a} {b} {l₁} {l₂} e p) s =
      run-perm c p (step a s) ∙ ap (λ x. run l₂ (step x s)) e
  run-perm c (Permᴰ.swap {a} {b} {a'} {b'} {l} e f) s =
      ap (run l) (c a b s ∙ ap (λ x. step a (step x s)) f ∙ ap (λ x. step x (step a' s)) e)
  run-perm c (Permᴰ.trans p q) s = run-perm c p s ∙ run-perm c q s
