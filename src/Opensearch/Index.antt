-- ===== src/Opensearch/Index.antt =====
-- The suffix of an index: `fmt.Sprintf("%d-%02d", year, month)`, and "-onprem".
use Prim.Native.Char.{Char}
use Prim.Native.Nat.{◌/◌, ◌%◌}
use assisted_events_stream.Prelude.{
  ℕ, zero, suc, String, ◌≡◌, refl, Bool, true, false, ltb, if◌then◌else◌,
}

-- the character of a decimal digit
abbrev pub digit : ℕ → Char
digit zero = "0"
digit (suc zero) = "1"
digit (suc (suc zero)) = "2"
digit (suc (suc (suc zero))) = "3"
digit (suc (suc (suc (suc zero)))) = "4"
digit (suc (suc (suc (suc (suc zero))))) = "5"
digit (suc (suc (suc (suc (suc (suc zero)))))) = "6"
digit (suc (suc (suc (suc (suc (suc (suc zero))))))) = "7"
digit (suc (suc (suc (suc (suc (suc (suc (suc zero)))))))) = "8"
digit _ = "9"

-- The digits of `n` before `out`; `fuel` bounds their number.
unfoldable pub emit : ℕ → ℕ → String → String
emit zero n out = out
emit (suc fuel) n out =
    let more = emit fuel (n / 10) (String.◌∷◌ (digit (n % 10)) out) in
    if ltb n 10 then String.◌∷◌ (digit n) out else more

-- `%d`
unfoldable pub decimal : ℕ → String → String
unfolding emit
decimal n out = emit (suc n) n out

-- `%02d`, for a number below 100
unfoldable pub two_digits : ℕ → String → String
two_digits n out = String.◌∷◌ (digit (n / 10)) (String.◌∷◌ (digit (n % 10)) out)

abbrev pub onprem_suffix : Bool → String
onprem_suffix true = "-onprem"
onprem_suffix false = ""

unfoldable pub index_suffix : ℕ → ℕ → Bool → String
unfolding decimal two_digits
index_suffix year month onprem =
    decimal year
      (let minus : Char = "-" in String.◌∷◌ minus (two_digits month (onprem_suffix onprem)))

suffix_of_may : index_suffix 2023 5 true ≡ "2023-05-onprem"
unfolding index_suffix
suffix_of_may = refl
