-- ===== src/Tests/Server.antt =====
-- A server for the examples: a list of cells, the newest write of a cell first.
use mathlib.Core.List.{Memᴰ}
use assisted_events_stream.Prelude.{
  String, ◌≡◌, refl, sym, ap, ◌∙◌, ◌⊎◌, inl, inr, Bool, true, false, ◌&&◌, Option, none, some, List,
  [], ◌∷◌, arith, ◌==◌, eq_iff, Bool-cases, if◌then◌else◌,
}
use assisted_events_stream.Types.{Error, failed, Result, ok, err}
use assisted_events_stream.Snapshot.{RedisClient}
use assisted_events_stream.Snapshot.Laws.{IsLawful}

abbrev pub Cells : Type 0
Cells = List (String × String × String)

find : String → String → Cells → Option String
find k f [] = none
find k f ((k', f', v) ∷ s) = if k' == k && f' == f then some v else find k f s

abbrev to_result : Option String → Result String
to_result none = err (failed "redis: nil")
to_result (some v) = ok v

abbrev add_field : Bool → String → Option String → List (String × String) → List (String × String)
add_field true f (some v) rest = (f, v) ∷ rest
add_field _ f _ rest = rest

-- the fields that stand under the key, each with its newest value in `all`
fields_of : String → Cells → Cells → List (String × String)
fields_of k all [] = []
fields_of k all ((k', f, _) ∷ s) = add_field (k' == k) f (find k f all) (fields_of k all s)

unfoldable pub hset : String → String → String → Cells → Cells × Option Error
hset k f v s = ((k, f, v) ∷ s, none)

unfoldable pub hget : String → String → Cells → Result String
unfolding find
hget k f s = to_result (find k f s)

unfoldable pub hget_all : String → Cells → Result (List (String × String))
unfolding fields_of find
hget_all k s = ok (fields_of k s s)

abbrev pub server : RedisClient
server = record {
  State = Cells;
  hset = hset;
  expire = λ k ttl s. (s, none);
  hget = hget;
  hget_all = hget_all;
}

hget-hset :
    (key field v : String) (s : Cells)
    → (hset key field v s).1 ≡ none
    → (k f : String)
    → hget k f (hset key field v s).0 ≡ (if key == k && field == f then ok v else hget k f s)
unfolding hget hset
hget-hset key field v s h k f = ground arith

hget-hset_any :
    (key field v : String) (s : Cells) (k f : String)
    → (hget k f (hset key field v s).0 ≡ hget k f s)
      ⊎ ((key ≡ k) × (field ≡ f) × (hget k f (hset key field v s).0 ≡ ok v))
unfolding hget hset
hget-hset_any key field v s k f = elim (Bool-cases (key == k && field == f)) [
  | inl e ↦ inr (ground (arith, eq_iff key k), ground (arith, eq_iff field f), rw e)
  | inr e ↦ inl (rw e)
]

fields_of_sound :
    (k : String) (all s : Cells) (f v : String)
    → Memᴰ (f, v) (fields_of k all s)
    → find k f all ≡ some v
unfolding fields_of
fields_of_sound k all [] f v m = elim m [ ]
fields_of_sound k all ((k', g, w) ∷ s) f v m =
    added (k' == k) (find k g all) refl m (fields_of_sound k all s f v)
  where
    added :
        (b : Bool) (o : Option String)
        → find k g all ≡ o
        → Memᴰ (f, v) (add_field b g o (fields_of k all s))
        → (Memᴰ (f, v) (fields_of k all s) → find k f all ≡ some v)
        → find k f all ≡ some v
    added true (some x) e (Memᴰ.head p) ih =
        ap (λ (q : String × String). find k q.0 all) p
        ∙ e
        ∙ ap (λ (q : String × String). some q.1) (sym p)
    added true (some x) e (Memᴰ.tail q) ih = ih q
    added true none e q ih = ih q
    added false o e q ih = ih q

mem_added :
    {x : String × String} (b : Bool) (g : String) (o : Option String)
    (rest : List (String × String))
    → Memᴰ x rest
    → Memᴰ x (add_field b g o rest)
mem_added true g (some v) rest m = Memᴰ.tail m
mem_added true g none rest m = m
mem_added false g o rest m = m

fields_of_complete :
    (k : String) (all s : Cells) (f v w : String)
    → find k f all ≡ some v
    → find k f s ≡ some w
    → Memᴰ (f, v) (fields_of k all s)
unfolding fields_of find
fields_of_complete k all [] f v w p h = cc
fields_of_complete k all ((k', g, x) ∷ s) f v w p h = elim (Bool-cases (k' == k && g == f)) [
  | inl e ↦
      let gf : g ≡ f = ground (arith, eq_iff g f) in
      let same : (k' == k) ≡ true = ground arith in rw (same, gf, p) (Memᴰ.head refl)
  | inr e ↦
      mem_added (k' == k) g (find k g all) (fields_of k all s)
        (fields_of_complete k all s f v w p (rw e at h))
]

pub server-IsLawful : IsLawful server
unfolding hget hget_all hset
server-IsLawful = record {
  hget-hset = hget-hset;
  hget-hset_any = hget-hset_any;
  hget-expire = λ key ttl s k f positive. refl;
  hget_all_sound = λ key s {raw} h f v m. sound key s raw h f v m;
  hget_all_complete = λ key s {raw} h f v found. complete key s raw h f v found;
}
  where
    sound :
        (key : String) (s : Cells) (raw : List (String × String))
        → hget_all key s ≡ ok raw
        → (f v : String) → Memᴰ (f, v) raw
        → hget key f s ≡ ok v
    sound key s raw h f v m =
        let e : raw ≡ fields_of key s s = cc in rw (fields_of_sound key s s f v (rw e at m))

    complete :
        (key : String) (s : Cells) (raw : List (String × String))
        → hget_all key s ≡ ok raw
        → (f v : String) → hget key f s ≡ ok v
        → Memᴰ (f, v) raw
    complete key s raw h f v found =
        let e : raw ≡ fields_of key s s = cc in
        let p : find key f s ≡ some v = ground arith in rw e (fields_of_complete key s s f v v p p)
