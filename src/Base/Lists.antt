-- ===== src/Base/Lists.antt =====
-- Lists measured and indexed by native numbers, under the library's names.
use Prim.Native.Nat.{ℕ, zero, suc, ◌+◌, ◌≤◌}
use mathlib.Core.Path.{◌≡◌, refl, ap}
use mathlib.Core.Logic.{◌≢◌}
use mathlib.Core.List.{List, [], ◌∷◌, ◌++◌, map}
use mathlib.Core.Option.{Option, none, some}
use native.Mathlib.Omega.{arith}

module _ {ℓ} {A : Type ℓ} where
  abbrev pub length : List A → ℕ
  length [] = 0
  length (x ∷ xs) = suc (length xs)

  abbrev pub get_elem? : List A → ℕ → Option A
  get_elem? [] i = none
  get_elem? (x ∷ xs) zero = some x
  get_elem? (x ∷ xs) (suc i) = get_elem? xs i

  -- The value at `i` replaced by its image; out of bounds, nothing changes.
  abbrev pub modify : List A → ℕ → (A → A) → List A
  modify [] i f = []
  modify (x ∷ xs) zero f = f x ∷ xs
  modify (x ∷ xs) (suc i) f = x ∷ modify xs i f

  abbrev pub take : ℕ → List A → List A
  take zero xs = []
  take (suc n) [] = []
  take (suc n) (x ∷ xs) = x ∷ take n xs

  abbrev pub drop : ℕ → List A → List A
  drop zero xs = xs
  drop (suc n) [] = []
  drop (suc n) (x ∷ xs) = drop n xs

  abbrev pub replicate : ℕ → A → List A
  replicate zero a = []
  replicate (suc n) a = a ∷ replicate n a

  -- A predicate on every element.
  abbrev pub All {κ} : (A → Type κ) → List A → Type κ
  All P [] = Unit
  All P (x ∷ xs) = P x × All P xs

  pub length-append : (xs ys : List A) → length (xs ++ ys) ≡ length xs + length ys
  length-append [] ys = omega arith
  length-append (x ∷ xs) ys = omega (arith, length-append xs ys)

  pub length-eq-zero : (xs : List A) → length xs ≡ 0 → xs ≡ []
  length-eq-zero [] h = refl
  length-eq-zero (x ∷ xs) h = absurd (omega arith)

  pub length-take : (n : ℕ) (xs : List A) → n ≤ length xs → length (take n xs) ≡ n
  length-take zero xs h = refl
  length-take (suc n) [] h = absurd (omega arith)
  length-take (suc n) (x ∷ xs) h = ap suc (length-take n xs (omega arith))

module _ {ℓ} {A : Type ℓ} where
  pub get_elem?-middle :
      (xs ys : List A) (y : A) (k : ℕ) → k ≡ length xs → get_elem? (xs ++ y ∷ ys) k ≡ some y
  get_elem?-middle [] ys y zero e = refl
  get_elem?-middle [] ys y (suc k) e = absurd (omega arith)
  get_elem?-middle (x ∷ xs) ys y zero e = absurd (omega arith)
  get_elem?-middle (x ∷ xs) ys y (suc k) e = get_elem?-middle xs ys y k (omega arith)

  pub modify-middle :
      (xs ys : List A) (y : A) (k : ℕ) (f : A → A)
      → k ≡ length xs
      → modify (xs ++ y ∷ ys) k f ≡ xs ++ f y ∷ ys
  modify-middle [] ys y zero f e = refl
  modify-middle [] ys y (suc k) f e = absurd (omega arith)
  modify-middle (x ∷ xs) ys y zero f e = absurd (omega arith)
  modify-middle (x ∷ xs) ys y (suc k) f e = ap (◌∷◌ x) (modify-middle xs ys y k f (omega arith))

  pub modify-id : (xs : List A) (k : ℕ) → modify xs k (λ x. x) ≡ xs
  modify-id [] k = refl
  modify-id (x ∷ xs) zero = refl
  modify-id (x ∷ xs) (suc k) = ap (◌∷◌ x) (modify-id xs k)

module _ {ℓ} {A : Type ℓ} where
  pub take-append-drop : (n : ℕ) (xs : List A) → take n xs ++ drop n xs ≡ xs
  take-append-drop zero xs = refl
  take-append-drop (suc n) [] = refl
  take-append-drop (suc n) (x ∷ xs) = ap (◌∷◌ x) (take-append-drop n xs)

  -- Updates at two places commute, and at one place if the functions do.
  pub modify_comm :
      (f g : A → A)
      → ((a : A) → f (g a) ≡ g (f a))
      → (xs : List A) (i j : ℕ) → modify (modify xs i g) j f ≡ modify (modify xs j f) i g
  modify_comm f g c [] i j = refl
  modify_comm f g c (x ∷ xs) zero zero = ap (λ y. y ∷ xs) (c x)
  modify_comm f g c (x ∷ xs) zero (suc j) = refl
  modify_comm f g c (x ∷ xs) (suc i) zero = refl
  modify_comm f g c (x ∷ xs) (suc i) (suc j) = ap (◌∷◌ x) (modify_comm f g c xs i j)

  pub modify_comm_ne :
      (f g : A → A) (xs : List A) (i j : ℕ)
      → i ≢ j
      → modify (modify xs i g) j f ≡ modify (modify xs j f) i g
  modify_comm_ne f g [] i j h = refl
  modify_comm_ne f g (x ∷ xs) zero zero h = absurd (h refl)
  modify_comm_ne f g (x ∷ xs) zero (suc j) h = refl
  modify_comm_ne f g (x ∷ xs) (suc i) zero h = refl
  modify_comm_ne f g (x ∷ xs) (suc i) (suc j) h =
      ap (◌∷◌ x) (modify_comm_ne f g xs i j (λ e. h (ap suc e)))

pub map-map {ℓ κ μ} :
    {A : Type ℓ} {B : Type κ} {C : Type μ} (f : B → C) (g : A → B) (xs : List A)
    → map f (map g xs) ≡ map (λ x. f (g x)) xs
map-map f g [] = refl
map-map f g (x ∷ xs) = ap (◌∷◌ (f (g x))) (map-map f g xs)

pub length-map {ℓ κ} :
    {A : Type ℓ} {B : Type κ} (f : A → B) (xs : List A) → length (map f xs) ≡ length xs
length-map f [] = refl
length-map f (x ∷ xs) = ap suc (length-map f xs)
