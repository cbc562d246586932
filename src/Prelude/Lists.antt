-- ===== src/Prelude/Lists.antt =====
-- Lists over the native numbers, and predicates on lists by recursion.
use Prim.Native.Nat.{ℕ, zero, suc, ◌+◌}
use mathlib.Core.Path.{◌≡◌, sym, subst}
use mathlib.Core.Logic.{◌⊎◌, inl, inr, Lift}
use mathlib.Core.List.{List, [], ◌∷◌, ◌++◌}
use native.Mathlib.Omega.{arith}

module _ {ℓ} {A : Type ℓ} where
  abbrev pub length : List A → ℕ
  length [] = 0
  length (x ∷ xs) = suc (length xs)

  abbrev pub replicate : ℕ → A → List A
  replicate zero a = []
  replicate (suc n) a = a ∷ replicate n a

  pub length-append : (xs ys : List A) → length (xs ++ ys) ≡ length xs + length ys
  length-append [] ys = omega arith
  length-append (x ∷ xs) ys = omega (arith, length-append xs ys)

abbrev pub All {ℓ κ} : {A : Type ℓ} → (A → Type κ) → List A → Type κ
All P [] = Unit
All P (x ∷ xs) = P x × All P xs

-- One of the elements.
abbrev pub IsOneOf {ℓ} : {A : Type ℓ} → List A → A → Type ℓ
IsOneOf [] x = Lift ⊥
IsOneOf (y ∷ ys) x = (x ≡ y) ⊎ IsOneOf ys x

pub All-IsOneOf {ℓ κ} :
    {A : Type ℓ} (P : A → Type κ) (xs : List A) (x : A) → All P xs → IsOneOf xs x → P x
All-IsOneOf P [] x ps h = absurd h.lower
All-IsOneOf P (y ∷ xs) x (p, ps) (inl e) = subst P (sym e) p
All-IsOneOf P (y ∷ xs) x (p, ps) (inr h) = All-IsOneOf P xs x ps h

-- What holds of every element of a list holds of every choice among them.
pub All-chosen {ℓ κ} :
    {A : Type ℓ} (P : A → Type κ) (xs ys : List A) → All P xs → All (IsOneOf xs) ys → All P ys
All-chosen P xs [] ps hs = tt
All-chosen P xs (y ∷ ys) ps (h, hs) = (All-IsOneOf P xs y ps h, All-chosen P xs ys ps hs)

pub All-append {ℓ κ} :
    {A : Type ℓ} (P : A → Type κ) (xs ys : List A) → All P xs → All P ys → All P (xs ++ ys)
All-append P [] ys h k = k
All-append P (x ∷ xs) ys (h, hs) k = (h, All-append P xs ys hs k)

-- An entry in the middle, and the others.
pub All-middle {ℓ κ} :
    {A : Type ℓ} (P : A → Type κ) (xs : List A) (y : A) (ys : List A)
    → All P (xs ++ y ∷ ys)
    → P y × All P (xs ++ ys)
All-middle P [] y ys h = h
All-middle P (x ∷ xs) y ys (h, hs) = let (k, ks) = All-middle P xs y ys hs in (k, (h, ks))
