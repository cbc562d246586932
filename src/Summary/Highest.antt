-- ===== src/Summary/Highest.antt =====
-- getHighestKeyValue finds an entry with the highest value, in whatever order it visits them.
use mathlib.Core.List.{Memᴰ}
use native.Mathlib.Nat.{le_of_mul-le-mul_left, mul-le-mul_right}
use assisted_events_stream.Prelude.{
  ℕ, ◌*◌, ◌≤◌, ◌<◌, String, ◌≡◌, refl, ap, Bool, true, false, ◌⊎◌, inl, inr, [], ◌∷◌, arith,
  Bool-cases, if◌then◌else◌,
}
use assisted_events_stream.Types.{Float}
use assisted_events_stream.Summary.{Counter, of_nat, float_lt, highest_from, get_highest_key_value}

-- `x ≤ y`, by cross multiplication
abbrev pub FloatLe : Float → Float → Type 0
FloatLe x y = x.numerator * y.denominator ≤ y.numerator * x.denominator

abbrev pub AllPositive : Counter → Type 0
AllPositive [] = Unit
AllPositive ((k, x) ∷ c) = (0 < x.denominator) × AllPositive c

trans_numbers : (a b c d e f : ℕ) → 0 < d → a * d ≤ c * b → c * f ≤ e * d → a * f ≤ e * b
trans_numbers a b c d e f p h k =
    le_of_mul-le-mul_left {k = d} (omega (arith, mul-le-mul_right f h, mul-le-mul_right b k)) p

FloatLe-trans : (x y z : Float) → 0 < y.denominator → FloatLe x y → FloatLe y z → FloatLe x z
FloatLe-trans x y z p h k =
    trans_numbers x.numerator x.denominator y.numerator y.denominator z.numerator z.denominator p h
      k

-- the value after one entry
abbrev better : Float → Float → Float
better value v = if float_lt value v then v else value

better-ge :
    (value v : Float)
    → 0 < value.denominator
    → 0 < v.denominator
    → FloatLe value (better value v)
      × FloatLe v (better value v)
      × (0 < (better value v).denominator)
better-ge value v p q = elim (Bool-cases (float_lt value v)) [
  | inl e ↦ rw e (ground arith)
  | inr e ↦ rw e (ground arith)
]

-- The value found is at least the start value and every entry's.
highest_from-ge :
    (key : String) (value : Float) (c : Counter)
    → 0 < value.denominator
    → AllPositive c
    → FloatLe value (highest_from key value c).1
      × (0 < (highest_from key value c).1.denominator)
      × ((k : String) (x : Float) → Memᴰ (k, x) c → FloatLe x (highest_from key value c).1)
unfolding highest_from
highest_from-ge key value [] p all = (omega arith, p, λ k x m. elim m [ ])
highest_from-ge key value ((k, v) ∷ c) p all =
    let (ge, ge_v, pos) = better-ge value v p all.0 in
    let (above, found, each) =
      highest_from-ge (if float_lt value v then k else key) (better value v) c pos all.1 in
    (
      FloatLe-trans value (better value v) _ pos ge above,
      found,
      entry k v c _ each (FloatLe-trans v (better value v) _ pos ge_v above),
    )
  where
    entry :
        (k : String) (v : Float) (c : Counter) (r : Float)
        → ((j : String) (x : Float) → Memᴰ (j, x) c → FloatLe x r)
        → FloatLe v r
        → (j : String) (x : Float) → Memᴰ (j, x) ((k, v) ∷ c)
        → FloatLe x r
    entry k v c r each le j x (Memᴰ.head e) = rw (ap (λ (q : String × Float). q.1) e) le
    entry k v c r each le j x (Memᴰ.tail m) = each j x m

-- What is found is an entry or the start.
highest_from-mem :
    (key : String) (value : Float) (c : Counter)
    → (highest_from key value c ≡ (key, value)) ⊎ Memᴰ (highest_from key value c) c
unfolding highest_from
highest_from-mem key value [] = inl refl
highest_from-mem key value ((k, v) ∷ c) =
    let b = float_lt value v in
    go b _ (highest_from-mem (if b then k else key) (if b then v else value) c)
  where
    go :
        (b : Bool) (r : String × Float)
        → (r ≡ (if b then k else key, if b then v else value)) ⊎ Memᴰ r c
        → (r ≡ (key, value)) ⊎ Memᴰ r ((k, v) ∷ c)
    go b r (inr m) = inr (Memᴰ.tail m)
    go true r (inl e) = inr (Memᴰ.head e)
    go false r (inl e) = inl e

-- In a counter whose denominators are positive, no entry is above the value found, and what is
-- found is an entry of the counter, or the empty key with the value 0.
pub get_highest_key_value-greatest :
    (c : Counter)
    → AllPositive c
    → ((k : String) (x : Float) → Memᴰ (k, x) c → FloatLe x (get_highest_key_value c).1)
      × ((get_highest_key_value c ≡ ("", of_nat 0)) ⊎ Memᴰ (get_highest_key_value c) c)
      × (0 < (get_highest_key_value c).1.denominator)
unfolding get_highest_key_value
get_highest_key_value-greatest c all =
    let (above, pos, each) = highest_from-ge "" (of_nat 0) c (omega arith) all in
    (each, highest_from-mem "" (of_nat 0) c, pos)
