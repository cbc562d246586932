-- ===== src/Opensearch/Names.antt =====
-- The name of an index tells the year, the month and whether the cluster is on-premise.
use Prim.Native.Char.{Char, code}
use Prim.Native.Nat.{◌/◌, ◌%◌}
use text.Mathlib.TextLemmas.{append_cancel_left}
use assisted_events_stream.Prelude.{
  ℕ, zero, suc, ◌+◌, ◌*◌, ◌-◌, ◌<◌, String, ◌≡◌, refl, sym, ap, ◌∙◌, Bool, true, false, ◌&&◌, arith,
  leb, ltb, if◌then◌else◌, Bool-cases, inl, inr,
}
use assisted_events_stream.Value.{lookup, entries}
use assisted_events_stream.Types.{Codec, Float, EnrichedEvent}
use assisted_events_stream.Opensearch.Index.{digit, emit, decimal, two_digits, index_suffix}
use assisted_events_stream.Opensearch.{BulkIndexer, has_member, get_index_name}

code-digit : (n : ℕ) → n < 10 → code (digit n) ≡ 48 + n
code-digit zero h = refl
code-digit (suc zero) h = refl
code-digit (suc (suc zero)) h = refl
code-digit (suc (suc (suc zero))) h = refl
code-digit (suc (suc (suc (suc zero)))) h = refl
code-digit (suc (suc (suc (suc (suc zero))))) h = refl
code-digit (suc (suc (suc (suc (suc (suc zero)))))) h = refl
code-digit (suc (suc (suc (suc (suc (suc (suc zero))))))) h = refl
code-digit (suc (suc (suc (suc (suc (suc (suc (suc zero)))))))) h = refl
code-digit (suc (suc (suc (suc (suc (suc (suc (suc (suc zero))))))))) h = refl
code-digit (suc (suc (suc (suc (suc (suc (suc (suc (suc (suc n)))))))))) h = absurd (omega arith)

is_digit : Char → Bool
is_digit c = leb 48 (code c) && leb (code c) 57

-- A number read from the front of a text, and the rest.
read : ℕ → String → ℕ × String
unfolding is_digit
read n String.[] = (n, "")
read n (String.◌∷◌ c s) =
    let more = read (n * 10 + (code c - 48)) s in if is_digit c then more else (n, String.◌∷◌ c s)

read-digit : (n d : ℕ) (s : String) → d < 10 → read n (String.◌∷◌ (digit d) s) ≡ read (n * 10 + d) s
unfolding read is_digit
read-digit n d s h = ground (arith, code-digit d h)

read-emit : (fuel n : ℕ) (out : String) → n < fuel → read 0 (emit fuel n out) ≡ read n out
unfolding emit
read-emit zero n out h = absurd (omega arith)
read-emit (suc fuel) n out h = elim (Bool-cases (ltb n 10)) [
  | inl small ↦ rw small (read-digit 0 n out (ground arith) ∙ ap (λ k. read k out) (omega arith))
  | inr large ↦ rw large (
      read-emit fuel (n / 10) (String.◌∷◌ (digit (n % 10)) out) (ground arith)
      ∙ read-digit (n / 10) (n % 10) out (omega arith)
      ∙ ap (λ k. read k out) (omega arith))
]

minus : Char
minus = "-"

-- what stands behind the year, read back
after_year : ℕ → String → ℕ × ℕ × Bool
after_year year (String.◌∷◌ _ (String.◌∷◌ a (String.◌∷◌ b String.[]))) =
    (year, (code a - 48) * 10 + (code b - 48), false)
after_year year (String.◌∷◌ _ (String.◌∷◌ a (String.◌∷◌ b (String.◌∷◌ _ _)))) =
    (year, (code a - 48) * 10 + (code b - 48), true)
after_year year _ = (year, 0, false)

-- A suffix of an index read back.
parse_suffix : String → ℕ × ℕ × Bool
unfolding read after_year
parse_suffix s = let (year, rest) = read 0 s in after_year year rest

month_read :
    (month : ℕ)
    → month < 100
    → (code (digit (month / 10)) - 48) * 10 + (code (digit (month % 10)) - 48) ≡ month
month_read month h =
    omega (arith, code-digit (month / 10) (omega arith), code-digit (month % 10) (omega arith))

parse_suffix-index_suffix :
    (year month : ℕ) (onprem : Bool)
    → month < 100
    → parse_suffix (index_suffix year month onprem) ≡ (year, month, onprem)
unfolding index_suffix decimal two_digits is_digit parse_suffix
parse_suffix-index_suffix year month true h =
    rw (read-emit (suc year) year _ (omega arith)) (ap (λ m. (year, m, true)) (month_read month h))
parse_suffix-index_suffix year month false h =
    rw (read-emit (suc year) year _ (omega arith)) (ap (λ m. (year, m, false)) (month_read month h))

module _ (json : Codec) (bits : Float → ℕ) (parse_time : String → ℕ × ℕ) (index_prefix : String)
    (bulk : BulkIndexer) where
  -- If the months that are read are below 100, two events go to one index only if their times have
  -- the same year and month, and both or neither of their clusters are on-premise.
  pub get_index_name_injective :
      (e f : EnrichedEvent)
      → (parse_time e.event_time).1 < 100
      → (parse_time f.event_time).1 < 100
      → get_index_name json bits parse_time index_prefix bulk e
        ≡ get_index_name json bits parse_time index_prefix bulk f
      → (parse_time e.event_time ≡ parse_time f.event_time)
        × (has_member (lookup "onprem" (entries e.cluster))
            ≡ has_member (lookup "onprem" (entries f.cluster)))
  unfolding get_index_name
  get_index_name_injective e f he hf same =
      let (y, m) = parse_time e.event_time in
      let (z, n) = parse_time f.event_time in
      let b = has_member (lookup "onprem" (entries e.cluster)) in
      let c = has_member (lookup "onprem" (entries f.cluster)) in
      let parts : (y, m, b) ≡ (z, n, c) =
        sym (parse_suffix-index_suffix y m b he)
        ∙ ap parse_suffix (append_cancel_left index_prefix _ _ same)
        ∙ parse_suffix-index_suffix z n c hf in
      (ap (λ (p : ℕ × ℕ × Bool). (p.0, p.1)) parts, ap (λ (p : ℕ × ℕ × Bool). p.2) parts)
