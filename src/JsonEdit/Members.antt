-- ===== src/JsonEdit/Members.antt =====
-- Reading and writing a member of the object under a path.
use assisted_events_stream.Prelude.{
  String, ◌≡◌, refl, ◌∙◌, Option, none, some, List, [], ◌∷◌, ◌++◌, eq_refl,
}
use assisted_events_stream.Value.{
  Value, null, bool, num, str, arr, obj, Fields, lookup, insert, erase, lookup-insert,
}
use assisted_events_stream.JsonEdit.Paths.{
  and_then, member, at, with_member, put_at, or_value, remove_at,
}

and_then-eq-some :
    (o : Option Value) (f : Value → Option Value) {x : Value}
    → and_then o f ≡ some x
    → (w : Value) × (o ≡ some w) × (f w ≡ some x)
and_then-eq-some none f h = cc
and_then-eq-some (some w) f h = (w, refl, h)

and_then-some : (o : Option Value) → and_then o some ≡ o
and_then-some none = refl
and_then-some (some w) = refl

some_inj : {v w : Value} → some v ≡ some w → v ≡ w
some_inj h = cc

object_of_member :
    (j : String) (v : Value) {w : Value}
    → member j v ≡ some w
    → (n : Fields) × (v ≡ obj n) × (lookup j n ≡ some w)
object_of_member j (obj n) h = (n, refl, h)
object_of_member j null h = cc
object_of_member j (bool b) h = cc
object_of_member j (num n) h = cc
object_of_member j (str s) h = cc
object_of_member j (arr vs) h = cc

-- Under a path to an object, one more key is a member of the object.
pub at-append :
    (ks : List String) (k : String) (v : Value) (m : Fields)
    → at ks v ≡ some (obj m)
    → at (ks ++ k ∷ []) v ≡ lookup k m
unfolding at
at-append [] k v m h = rw (some_inj h) (and_then-some (lookup k m))
at-append (j ∷ ks) k v m h =
    let (w, p, q) = and_then-eq-some (member j v) (at ks) h in rw p (at-append ks k w m q)

put_at-append :
    (j : String) (ks : List String) (k : String) (x v : Value)
    → put_at (j ∷ (ks ++ k ∷ [])) x v
      ≡ and_then (member j v) (λ w. and_then (put_at (ks ++ k ∷ []) x w) (λ w'. with_member j w' v))
unfolding put_at
put_at-append j [] k x v = refl
put_at-append j (i ∷ ks) k x v = refl

remove_at-append :
    (j : String) (ks : List String) (k : String) (v : Value)
    → remove_at (j ∷ (ks ++ k ∷ [])) v
      ≡ or_value v (and_then (member j v) (λ w. with_member j (remove_at (ks ++ k ∷ []) w) v))
unfolding remove_at
remove_at-append j [] k v = refl
remove_at-append j (i ∷ ks) k v = refl

at-with_member :
    (j : String) (ks : List String) (w : Value) (n : Fields)
    → at (j ∷ ks) (obj (insert j w n)) ≡ at ks w
unfolding at
at-with_member j ks w n = rw (lookup-insert j j w n, eq_refl j)

-- Putting a member into the object under a path succeeds and changes that object alone.
pub at-put_at :
    (ks : List String) (k : String) (x v : Value) (m : Fields)
    → at ks v ≡ some (obj m)
    → (v' : Value) × (put_at (ks ++ k ∷ []) x v ≡ some v') × (at ks v' ≡ some (obj (insert k x m)))
unfolding put_at at
at-put_at [] k x v m h = (obj (insert k x m), rw (some_inj h), refl)
at-put_at (j ∷ ks) k x v m h =
    let (w, p, q) = and_then-eq-some (member j v) (at ks) h in
    let (n, e, l) = object_of_member j v p in
    let (w', put, found) = at-put_at ks k x w m q in
    (
      obj (insert j w' n),
      rw (put_at-append j ks k x v, p, put, e),
      at-with_member j ks w' n ∙ found,
    )

-- Taking a member out of the object under a path changes that object alone.
pub at-remove_at :
    (ks : List String) (k : String) (v : Value) (m : Fields)
    → at ks v ≡ some (obj m)
    → at ks (remove_at (ks ++ k ∷ []) v) ≡ some (obj (erase k m))
unfolding remove_at at
at-remove_at [] k v m h = rw (some_inj h)
at-remove_at (j ∷ ks) k v m h =
    let (w, p, q) = and_then-eq-some (member j v) (at ks) h in
    let (n, e, l) = object_of_member j v p in
    let removed : remove_at (j ∷ (ks ++ k ∷ [])) v ≡ obj (insert j (remove_at (ks ++ k ∷ []) w) n) =
      rw (remove_at-append j ks k v, p, e) in
    rw removed (at-with_member j ks (remove_at (ks ++ k ∷ []) w) n ∙ at-remove_at ks k w m q)
