-- ===== src/Types/Decode/Only.antt =====
-- Objects with one member at most for a field of a struct, and what json.Unmarshal finds in them.
use mathlib.Core.Path.{subst}
use assisted_events_stream.Prelude.{
  String, ◌≡◌, refl, sym, ◌∙◌, ◌⊎◌, inl, inr, true, false, Option, none, some, arith, ◌==◌, eq_iff,
  eq_refl, Bool-cases,
}
use assisted_events_stream.Value.{Value, Fields, end, field, lookup, insert}
use assisted_events_stream.Types.Decode.{equal_fold}

-- No member goes into the field.
abbrev pub NoMember : String → Fields → Type 0
NoMember name end = Unit
NoMember name (field k v m) = (equal_fold k name ≡ false) × NoMember name m

-- One member goes there; it has the field's very name, and the value.
abbrev pub SoleMember : String → Value → Fields → Type 0
SoleMember name x end = ⊥
SoleMember name x (field k v m) =
    ((k ≡ name) × (v ≡ x) × NoMember name m) ⊎ ((equal_fold k name ≡ false) × SoleMember name x m)

abbrev pub Only : String → Option Value → Fields → Type 0
Only name none m = NoMember name m
Only name (some x) m = SoleMember name x m

equal_fold_refl : (s : String) → equal_fold s s ≡ true
unfolding equal_fold
equal_fold_refl String.[] = refl
equal_fold_refl (String.◌∷◌ c s) = ground (arith, equal_fold_refl s)

eq-of-fold : (j k : String) → equal_fold j k ≡ false → (j == k) ≡ false
eq-of-fold j k h = elim (Bool-cases (j == k)) [
  | inr n ↦ n
  | inl e ↦
      let same : equal_fold k k ≡ false =
        subst (λ (i : String). equal_fold i k ≡ false) ((eq_iff j k).0 e) h in
      let bad : true ≡ false = sym (equal_fold_refl k) ∙ same in cc
]

NoMember-lookup : (name : String) (m : Fields) → NoMember name m → lookup name m ≡ none
unfolding lookup
NoMember-lookup name end h = refl
NoMember-lookup name (field k v m) (n, h) = rw (eq-of-fold k name n) (NoMember-lookup name m h)

pub lookup-Only :
    (name : String) (o : Option Value) (m : Fields) → Only name o m → lookup name m ≡ o
unfolding lookup
lookup-Only name none m h = NoMember-lookup name m h
lookup-Only name (some x) end h = absurd h
lookup-Only name (some x) (field k v m) (inl (e, e', n)) = rw (e, eq_refl name, e')
lookup-Only name (some x) (field k v m) (inr (n, h)) =
    rw (eq-of-fold k name n) (lookup-Only name (some x) m h)

-- Setting the member gives it the new value.
pub insert-Only :
    (name : String) (x : Value) (o : Option Value) (m : Fields)
    → Only name o m
    → Only name (some x) (insert name x m)
unfolding insert
insert-Only name x none end h = inl (refl, refl, tt)
insert-Only name x none (field k v m) (n, h) =
    rw (eq-of-fold k name n) (inr (n, insert-Only name x none m h))
insert-Only name x (some y) end h = absurd h
insert-Only name x (some y) (field k v m) (inl (e, e', n)) =
    rw (e, eq_refl name) (inl (refl, refl, n))
insert-Only name x (some y) (field k v m) (inr (n, h)) =
    rw (eq-of-fold k name n) (inr (n, insert-Only name x (some y) m h))

NoMember-insert :
    (name k : String) (x : Value) (m : Fields)
    → equal_fold k name ≡ false
    → NoMember name m
    → NoMember name (insert k x m)
unfolding insert
NoMember-insert name k x end ne h = (ne, tt)
NoMember-insert name k x (field j v m) ne (n, h) = elim (Bool-cases (j == k)) [
  | inl e ↦ rw e (ne, h)
  | inr e ↦ rw e (n, NoMember-insert name k x m ne h)
]

-- Setting another member leaves it.
pub insert_other-Only :
    (name k : String) (x : Value) (o : Option Value) (m : Fields)
    → equal_fold k name ≡ false
    → Only name o m
    → Only name o (insert k x m)
unfolding insert
insert_other-Only name k x none m ne h = NoMember-insert name k x m ne h
insert_other-Only name k x (some y) end ne h = absurd h
insert_other-Only name k x (some y) (field j v m) ne (inl (e, e', n)) = elim (Bool-cases (j == k)) [
  | inl f ↦
      let same : equal_fold name name ≡ false =
        subst (λ (i : String). equal_fold i name ≡ false) (sym ((eq_iff j k).0 f) ∙ e) ne in
      let bad : true ≡ false = sym (equal_fold_refl name) ∙ same in cc
  | inr f ↦ rw f (inl (e, e', NoMember-insert name k x m ne n))
]
insert_other-Only name k x (some y) (field j v m) ne (inr (n, h)) = elim (Bool-cases (j == k)) [
  | inl f ↦ rw f (inr (ne, h))
  | inr f ↦ rw f (inr (n, insert_other-Only name k x (some y) m ne h))
]

-- So does a member before it, for another field.
pub cons-Only :
    (name k : String) (v : Value) (o : Option Value) (m : Fields)
    → equal_fold k name ≡ false
    → Only name o m
    → Only name o (field k v m)
cons-Only name k v none m ne h = (ne, h)
cons-Only name k v (some x) m ne h = inr (ne, h)
