-- ===== src/Text/Parts.antt =====
-- The parts of a split text do not contain the separator, and trimming keeps that.
use Prim.Native.Char.{code}
use assisted_events_stream.Prelude.{
  ℕ, zero, suc, String, ◌≡◌, refl, sym, ◌∙◌, Bool, true, false, ◌&&◌, ◌||◌, List, [], ◌∷◌, nat_eq,
  arith, All, inl, inr, Bool-cases, if◌then◌else◌,
}
use assisted_events_stream.Text.{
  has_prefix, contains, head, tail, split_from, split, trim_left, trim_right, trim_dots,
  rest_length, is_empty,
}

both : (b x y : Bool) → (x ≡ true → y ≡ true) → (b && x) ≡ true → (b && y) ≡ true
both true x y h e = h e
both false x y h e = e

-- A prefix of the first part is one of the text.
has_prefix-head :
    (sep p s : String) → has_prefix p (head (split_from sep zero s)) ≡ true → has_prefix p s ≡ true
unfolding has_prefix split_from
has_prefix-head sep String.[] s h = refl
has_prefix-head sep (String.◌∷◌ p ps) String.[] h = h
has_prefix-head sep (String.◌∷◌ p ps) (String.◌∷◌ c s) h =
    go (has_prefix sep (String.◌∷◌ c s)) (has_prefix-head sep ps s) h
  where
    go :
        (cut : Bool)
        → (has_prefix ps (head (split_from sep zero s)) ≡ true → has_prefix ps s ≡ true)
        → has_prefix (String.◌∷◌ p ps) (
            head (
              if cut
              then "" ∷ split_from sep (rest_length sep) s
              else String.◌∷◌ c (head (split_from sep zero s)) ∷ tail (split_from sep zero s)))
          ≡ true
        → has_prefix (String.◌∷◌ p ps) (String.◌∷◌ c s) ≡ true
    go true ih h = cc
    go false ih h =
        both (nat_eq (code p) (code c)) (has_prefix ps (head (split_from sep zero s)))
          (has_prefix ps s) ih h

has_prefix-trim_right : (p s : String) → has_prefix p (trim_right s) ≡ true → has_prefix p s ≡ true
unfolding has_prefix trim_right
has_prefix-trim_right String.[] s h = refl
has_prefix-trim_right (String.◌∷◌ p ps) String.[] h = h
has_prefix-trim_right (String.◌∷◌ p ps) (String.◌∷◌ c s) h =
    go (nat_eq (code c) b'.' && is_empty (trim_right s)) (has_prefix-trim_right ps s) h
  where
    go :
        (cut : Bool)
        → (has_prefix ps (trim_right s) ≡ true → has_prefix ps s ≡ true)
        → has_prefix (String.◌∷◌ p ps) (if cut then "" else String.◌∷◌ c (trim_right s)) ≡ true
        → has_prefix (String.◌∷◌ p ps) (String.◌∷◌ c s) ≡ true
    go true ih h = cc
    go false ih h =
        both (nat_eq (code p) (code c)) (has_prefix ps (trim_right s)) (has_prefix ps s) ih h

-- `x || y` is false exactly if both are.
or_false : (x y : Bool) → x ≡ false → y ≡ false → (x || y) ≡ false
or_false x y h k = ground arith

or_left : (x y : Bool) → (x || y) ≡ false → x ≡ false
or_left x y h = ground arith

or_right : (x y : Bool) → (x || y) ≡ false → y ≡ false
or_right x y h = ground arith

not_true : (x y : Bool) → (x ≡ true → y ≡ true) → y ≡ false → x ≡ false
not_true true y h e = sym (h refl) ∙ e
not_true false y h e = refl

-- A separator that is not empty.
abbrev pub IsSeparator : String → Type 0
IsSeparator sep = has_prefix sep "" ≡ false

contains-trim_left : (sep s : String) → contains sep s ≡ false → contains sep (trim_left s) ≡ false
unfolding contains trim_left
contains-trim_left sep String.[] h = h
contains-trim_left sep (String.◌∷◌ c s) h = elim (Bool-cases (nat_eq (code c) b'.')) [
  | inl e ↦
      rw e
        (contains-trim_left sep s (or_right (has_prefix sep (String.◌∷◌ c s)) (contains sep s) h))
  | inr e ↦ rw e h
]

contains-trim_right :
    (sep s : String)
    → IsSeparator sep
    → contains sep s ≡ false
    → contains sep (trim_right s) ≡ false
unfolding contains trim_right
contains-trim_right sep String.[] sound h = h
contains-trim_right sep (String.◌∷◌ c s) sound h =
    go (nat_eq (code c) b'.' && is_empty (trim_right s)) refl (
      contains-trim_right sep s sound
        (or_right (has_prefix sep (String.◌∷◌ c s)) (contains sep s) h))
  where
    go :
        (cut : Bool)
        → (nat_eq (code c) b'.' && is_empty (trim_right s)) ≡ cut
        → contains sep (trim_right s) ≡ false
        → contains sep (if cut then "" else String.◌∷◌ c (trim_right s)) ≡ false
    go true e ih = sound
    go false e ih =
        or_false (has_prefix sep (String.◌∷◌ c (trim_right s))) (contains sep (trim_right s))
          (not_true (has_prefix sep (String.◌∷◌ c (trim_right s))) (has_prefix sep (String.◌∷◌ c s))
            (λ p. has_prefix-trim_right sep (String.◌∷◌ c s) (rw e p))
            (or_left (has_prefix sep (String.◌∷◌ c s)) (contains sep s) h))
          ih

pub contains-trim_dots :
    (sep s : String) → IsSeparator sep → contains sep s ≡ false → contains sep (trim_dots s) ≡ false
unfolding trim_dots
contains-trim_dots sep s sound h =
    contains-trim_right sep (trim_left s) sound (contains-trim_left sep s h)

abbrev pub NoneContains : String → List String → Type 0
NoneContains sep = All (λ part. contains sep part ≡ false)

head-NoneContains :
    (sep : String) (parts : List String)
    → IsSeparator sep
    → NoneContains sep parts
    → contains sep (head parts) ≡ false
unfolding contains
head-NoneContains sep [] sound h = sound
head-NoneContains sep (p ∷ parts) sound h = h.0

tail-NoneContains :
    (sep : String) (parts : List String) → NoneContains sep parts → NoneContains sep (tail parts)
tail-NoneContains sep [] h = tt
tail-NoneContains sep (p ∷ parts) h = h.1

split_from-NoneContains :
    (sep : String) (skip : ℕ) (s : String)
    → IsSeparator sep
    → NoneContains sep (split_from sep skip s)
unfolding split_from contains
split_from-NoneContains sep skip String.[] sound = (sound, tt)
split_from-NoneContains sep (suc skip) (String.◌∷◌ c s) sound =
    split_from-NoneContains sep skip s sound
split_from-NoneContains sep zero (String.◌∷◌ c s) sound =
    go (has_prefix sep (String.◌∷◌ c s)) refl
      (split_from-NoneContains sep (rest_length sep) s sound)
      (split_from-NoneContains sep zero s sound)
  where
    go :
        (cut : Bool)
        → has_prefix sep (String.◌∷◌ c s) ≡ cut
        → NoneContains sep (split_from sep (rest_length sep) s)
        → NoneContains sep (split_from sep zero s)
        → NoneContains sep (
            if cut
            then "" ∷ split_from sep (rest_length sep) s
            else String.◌∷◌ c (head (split_from sep zero s)) ∷ tail (split_from sep zero s))
    go true e rest parts = (sound, rest)
    go false e rest parts = (
      or_false (has_prefix sep (String.◌∷◌ c (head (split_from sep zero s))))
          (contains sep (head (split_from sep zero s)))
          (not_true (has_prefix sep (String.◌∷◌ c (head (split_from sep zero s))))
            (has_prefix sep (String.◌∷◌ c s))
            (λ p. has_prefix-head sep sep (String.◌∷◌ c s) (rw e p)) e)
          (head-NoneContains sep (split_from sep zero s) sound parts),
      tail-NoneContains sep (split_from sep zero s) parts,
    )

-- No part of a split text contains the separator.
pub split-NoneContains : (s sep : String) → IsSeparator sep → NoneContains sep (split s sep)
unfolding split
split-NoneContains s sep sound = split_from-NoneContains sep zero s sound
