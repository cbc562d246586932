-- ===== src/Prelude/Counts.antt =====
-- Counting the entries of a list.
use Prim.Native.Nat.{ℕ, ◌+◌}
use mathlib.Core.Path.{◌≡◌, refl}
use mathlib.Core.Bool.{Bool}
use mathlib.Core.List.{List, [], ◌∷◌, ◌++◌}
use native.Mathlib.Omega.{arith}
use assisted_events_stream.Prelude.Tests.{if◌then◌else◌}

-- How many entries of the list carry something that has the property.
abbrev pub count : {A B : Type 0} → (A → B) → (B → Bool) → List A → ℕ
count of p [] = 0
count of p (x ∷ xs) = (if p (of x) then 1 else 0) + count of p xs

abbrev pub itself : {A : Type 0} → A → A
itself x = x

pub count-append :
    {A B : Type 0} (of : A → B) (p : B → Bool) (xs ys : List A)
    → count of p (xs ++ ys) ≡ count of p xs + count of p ys
count-append of p [] ys = omega arith
count-append of p (x ∷ xs) ys = omega (arith, count-append of p xs ys)

-- An entry in the middle counts once.
pub count-middle :
    {A B : Type 0} (of : A → B) (p : B → Bool) (xs : List A) (y : A) (ys : List A)
    → count of p (xs ++ y ∷ ys) ≡ (if p (of y) then 1 else 0) + count of p (xs ++ ys)
count-middle of p [] y ys = refl
count-middle of p (x ∷ xs) y ys = omega (arith, count-middle of p xs y ys)
