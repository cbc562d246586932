-- ===== src/Tests/Codec.antt =====
-- A codec that keeps its law, for the examples. It is not JSON: a value is written in prefix form
-- behind its size in unary, which is how deep the reader may go.
use Prim.Native.Char.{Char, code}
use assisted_events_stream.Prelude.{
  ℕ, zero, suc, ◌+◌, ◌≤◌, String, ◌≡◌, refl, true, false, Option, none, some, arith, nat_eq,
  if◌then◌else◌,
}
use assisted_events_stream.Value.{
  Value, null, bool, num, str, arr, obj, Items, nil, cons, Fields, end, field,
}
use assisted_events_stream.Types.{Codec}

infixr 67 ◌>◌
abbrev ◌>◌ : Char → String → String
c > s = String.◌∷◌ c s

unary : ℕ → String → String
unary zero rest = "." > rest
unary (suc n) rest = "1" > unary n rest

quote : String → String → String
quote String.[] rest = "." > rest
quote (String.◌∷◌ c s) rest = "'" > c > quote s rest

mutual
  write : Value → String → String
  write null rest = "n" > rest
  write (bool true) rest = "t" > rest
  write (bool false) rest = "f" > rest
  write (num n) rest = "#" > unary n rest
  write (str s) rest = "s" > quote s rest
  write (arr vs) rest = "[" > write_items vs rest
  write (obj m) rest = "{" > write_fields m rest

  write_items : Items → String → String
  write_items nil rest = "]" > rest
  write_items (cons v vs) rest = "," > write v (write_items vs rest)

  write_fields : Fields → String → String
  write_fields end rest = "}" > rest
  write_fields (field k v m) rest = ":" > quote k (write v (write_fields m rest))

mutual
  size : Value → ℕ
  size null = 1
  size (bool b) = 1
  size (num n) = 1
  size (str s) = 1
  size (arr vs) = suc (size_items vs)
  size (obj m) = suc (size_fields m)

  size_items : Items → ℕ
  size_items nil = 1
  size_items (cons v vs) = suc (size v + size_items vs)

  size_fields : Fields → ℕ
  size_fields end = 1
  size_fields (field k v m) = suc (size v + size_fields m)

-- what a reader found, and the rest of the text
abbrev Read : Type 0 → Type 0
Read A = Option (A × String)

abbrev then_read : {A B : Type 0} → Read A → (A → String → Read B) → Read B
then_read none next = none
then_read (some (a, s)) next = next a s

read_unary : String → Read ℕ
read_unary String.[] = none
read_unary (String.◌∷◌ c s) =
    let more = read_unary s in
    if nat_eq (code c) b'.' then some (0, s) else then_read more (λ n rest. some (suc n, rest))

unquote : String → Read String
unquote String.[] = none
unquote (String.◌∷◌ c String.[]) = if nat_eq (code c) b'.' then some ("", "") else none
unquote (String.◌∷◌ c (String.◌∷◌ d s)) =
    let more = unquote s in
    if nat_eq (code c) b'.' then some ("", d > s) else then_read more (λ t rest. some (d > t, rest))

mutual
  read : ℕ → String → Read Value
  read zero s = none
  read (suc f) String.[] = none
  read (suc f) (String.◌∷◌ c s) =
      let items = read_items f s in
      let fields = read_fields f s in
      if nat_eq (code c) b'n'
      then some (null, s)
      else if nat_eq (code c) b't'
      then some (bool true, s)
      else if nat_eq (code c) b'f'
      then some (bool false, s)
      else if nat_eq (code c) b'#'
      then then_read (read_unary s) (λ n rest. some (num n, rest))
      else if nat_eq (code c) b's'
      then then_read (unquote s) (λ t rest. some (str t, rest))
      else if nat_eq (code c) b'['
      then then_read items (λ vs rest. some (arr vs, rest))
      else then_read fields (λ m rest. some (obj m, rest))

  read_items : ℕ → String → Read Items
  read_items zero s = none
  read_items (suc f) String.[] = none
  read_items (suc f) (String.◌∷◌ c s) =
      let more =
        then_read (read f s)
          (λ v s'. then_read (read_items f s') (λ vs rest. some (cons v vs, rest))) in
      if nat_eq (code c) b']' then some (nil, s) else more

  read_fields : ℕ → String → Read Fields
  read_fields zero s = none
  read_fields (suc f) String.[] = none
  read_fields (suc f) (String.◌∷◌ c s) =
      let more = then_read (unquote s) (λ k s'.
        then_read (read f s')
          (λ v s2. then_read (read_fields f s2) (λ m rest. some (field k v m, rest)))) in
      if nat_eq (code c) b'}' then some (end, s) else more

read_unary-unary : (n : ℕ) (rest : String) → read_unary (unary n rest) ≡ some (n, rest)
unfolding read_unary unary
read_unary-unary zero rest = refl
read_unary-unary (suc n) rest = rw (read_unary-unary n rest)

unquote-quote : (s rest : String) → unquote (quote s rest) ≡ some (s, rest)
unfolding unquote quote
unquote-quote String.[] String.[] = refl
unquote-quote String.[] (String.◌∷◌ c rest) = refl
unquote-quote (String.◌∷◌ c s) rest = rw (unquote-quote s rest)

mutual
  unfolding read write size

  read-write :
      (v : Value) (f : ℕ) (rest : String) → size v ≤ f → read f (write v rest) ≡ some (v, rest)
  read-write null (suc f) rest h = refl
  read-write (bool true) (suc f) rest h = refl
  read-write (bool false) (suc f) rest h = refl
  read-write (num n) (suc f) rest h = rw (read_unary-unary n rest)
  read-write (str s) (suc f) rest h = rw (unquote-quote s rest)
  read-write (arr vs) (suc f) rest h = rw (read_items-write_items vs f rest (omega arith))
  read-write (obj m) (suc f) rest h = rw (read_fields-write_fields m f rest (omega arith))
  read-write (bool true) zero rest h = absurd (omega arith)
  read-write (bool false) zero rest h = absurd (omega arith)
  read-write _ zero rest h = absurd (omega arith)

  read_items-write_items :
      (vs : Items) (f : ℕ) (rest : String)
      → size_items vs ≤ f
      → read_items f (write_items vs rest) ≡ some (vs, rest)
  read_items-write_items nil zero rest h = absurd (omega arith)
  read_items-write_items nil (suc f) rest h = refl
  read_items-write_items (cons v vs) zero rest h = absurd (omega arith)
  read_items-write_items (cons v vs) (suc f) rest h = rw (
    read-write v f (write_items vs rest) (omega arith),
    read_items-write_items vs f rest (omega arith),
  )

  read_fields-write_fields :
      (m : Fields) (f : ℕ) (rest : String)
      → size_fields m ≤ f
      → read_fields f (write_fields m rest) ≡ some (m, rest)
  read_fields-write_fields end zero rest h = absurd (omega arith)
  read_fields-write_fields end (suc f) rest h = refl
  read_fields-write_fields (field k v m) zero rest h = absurd (omega arith)
  read_fields-write_fields (field k v m) (suc f) rest h = rw (
    unquote-quote k (write v (write_fields m rest)),
    read-write v f (write_fields m rest) (omega arith),
    read_fields-write_fields m f rest (omega arith),
  )

unfoldable pub marshal : Value → String
unfolding write size unary quote
marshal v = unary (size v) (write v "")

abbrev whole : Read Value → Option Value
whole none = none
whole (some (v, s)) = some v

unfoldable pub unmarshal : String → Option Value
unfolding read read_unary unquote
unmarshal s = whole (then_read (read_unary s) (λ f rest. read f rest))

pub unmarshal-marshal : (v : Value) → unmarshal (marshal v) ≡ some v
unfolding unmarshal marshal
unmarshal-marshal v =
    rw (read_unary-unary (size v) (write v ""), read-write v (size v) "" (omega arith))

abbrev pub codec : Codec
codec = record { marshal = marshal; unmarshal = unmarshal; unmarshal-marshal = unmarshal-marshal }
